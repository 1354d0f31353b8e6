-- ===== src/DiskManager/Pages.antt =====
-- What the disk manager of project1/disk_manager.rs keeps of each page.
use meridian_space_academy_c.Prelude.{
  ℕ, ◌*◌, ◌≡◌, ◌≢◌, ◌∙◌, ◌⊎◌, inl, inr, refl, sym, ap, subst, ◌&&◌, List, [], ◌∷◌, length, All,
  arith, ◌==◌, Bool-cases,
}
use meridian_space_academy_c.Config.{page_size}
use meridian_space_academy_c.Result.{Result, ok, err, Error, device}
use meridian_space_academy_c.Disk.{File, fate_of, later}
use meridian_space_academy_c.Disk.Overlay.{peek}
use meridian_space_academy_c.PageStore.{PageId}
use meridian_space_academy_c.RelationFile.{read_and_verify_page, write_page_with_checksum}
use meridian_space_academy_c.RelationFile.Stored.{Holds, IsVerified, stamp, Fate-cases}
use meridian_space_academy_c.RelationFile.Access.{content, read_and_verify_page-Reads}
use meridian_space_academy_c.RelationFile.Write.{write_page_with_checksum-Stores}
use meridian_space_academy_c.DiskManager.{
  DiskManager, get_segment_idx, is_open, handle, put_file, create_relation, get_relation, read_page,
  write_page,
}

-- The page `id` is in its file, and is `b`.
abbrev pub HoldsPage : DiskManager → PageId → List ℕ → Type 0
HoldsPage dm id b = Holds (content (handle dm id)) page_size id.page_no b

-- The bytes of the page `id`, with zeros behind the end of its file.
abbrev pub page_at : DiskManager → PageId → List ℕ
page_at dm id = peek (content (handle dm id)) (id.page_no * page_size) page_size

-- `get_relation` opens a file or finds it open, or fails; the files are as they were.
get_relation-cases :
    (dm : DiskManager) (id : PageId)
    → (dm' : DiskManager) × (dm'.files ≡ dm.files)
      × ((get_relation dm id ≡ (dm', ok (handle dm id)))
          ⊎ ((e : Error) × (get_relation dm id ≡ (dm', err e))))
unfolding get_relation create_relation
get_relation-cases dm id =
    elim (Bool-cases (is_open id.relation_id (get_segment_idx id.page_no) dm.open_relations)) [
      | inl e ↦ (dm, refl, inl (ground (arith, e)))
      | inr e ↦ elim (Fate-cases (fate_of dm.opens)) [
        | inl e' ↦ (
          record dm {
            open_relations = (id.relation_id, get_segment_idx id.page_no) ∷ dm.open_relations;
            opens = later dm.opens;
          },
          refl,
          inl (ground (arith, e, e')),
        )
        | inr (n, c, e') ↦
            (record dm { opens = later dm.opens }, refl, inr (device c, ground (arith, e, e')))
      ]
    ]

-- The outcome of writing `b` to the page `id`: no other page changes, and without an error the page is
-- `b`.
pub record Wrote (dm : DiskManager) (id : PageId) (b : List ℕ) (dm' : DiskManager)
    (r : Result (Unit {0})) : Type 0 where
  pub others : (q : PageId) (c : List ℕ) → q ≢ id → HoldsPage dm q c → HoldsPage dm' q c
  pub pages : (q : PageId) → q ≢ id → page_at dm' q ≡ page_at dm q
  pub answer : ((r ≡ ok tt) × HoldsPage dm' id b) ⊎ ((e : Error) × (r ≡ err e))

-- The outcome of reading the page `id`: no page changes, and without an error the buffer is the page,
-- whose checksum is right.
pub record Read (hash : List ℕ → ℕ) (dm : DiskManager) (id : PageId)
    (r : (DiskManager × List ℕ) × Result (Unit {0})) : Type 0 where
  pub same : (q : PageId) → content (handle r.0.0 q) ≡ content (handle dm q)
  pub answer :
      ((r.1 ≡ ok tt) × HoldsPage dm id r.0.1 × IsVerified hash r.0.1)
      ⊎ ((e : Error) × (r.1 ≡ err e))

module _ (dm dm' : DiskManager) (files : dm'.files ≡ dm.files) (id : PageId) (f : File) where
  abbrev put : DiskManager
  put = put_file dm' id f

  untouched : (q : PageId) → (handle dm' q).file ≡ (handle dm q).file
  untouched q = ap (λ (x : ℕ → ℕ → File). x q.relation_id (get_segment_idx q.page_no)) files

  -- A page has its file from the call, or the file that it had.
  put-cases :
      (q : PageId)
      → (((handle put q).file ≡ f)
          × (q.relation_id ≡ id.relation_id)
          × ((handle dm q).file ≡ (handle dm id).file))
        ⊎ ((handle put q).file ≡ (handle dm q).file)
  put-cases q =
      elim (Bool-cases (
        (q.relation_id == id.relation_id)
        && (get_segment_idx q.page_no == get_segment_idx id.page_no))) [
          | inl e ↦
              let rel : q.relation_id ≡ id.relation_id = ground (arith, e) in
              let seg : get_segment_idx q.page_no ≡ get_segment_idx id.page_no =
                ground (arith, e) in
              inl (
                rw e refl,
                rel,
                ap (λ r. dm.files r (get_segment_idx q.page_no)) rel
                    ∙ ap (dm.files id.relation_id) seg,
              )
          | inr e ↦ inr (rw e (untouched q))
        ]

  put_here : (handle put id).file ≡ f
  put_here = ground arith

  -- The file had not changed, so no page has.
  put_same :
      f.content ≡ content (handle dm id)
      → (q : PageId) → content (handle put q) ≡ content (handle dm q)
  put_same same q = elim (put-cases q) [
    | inl (e, _, e') ↦ ap (λ (x : File). x.content) e ∙ same ∙ sym (ap (λ (x : File). x.content) e')
    | inr e ↦ ap (λ (x : File). x.content) e
  ]

  put_others :
      ((j : ℕ) (c : List ℕ)
        → j ≢ id.page_no
        → Holds (content (handle dm id)) page_size j c
        → Holds f.content page_size j c)
      → (q : PageId) (c : List ℕ) → q ≢ id
      → HoldsPage dm q c
      → HoldsPage put q c
  put_others others q c ne h = elim (put-cases q) [
    | inl (e, rel, e') ↦
        let there : Holds (content (handle dm id)) page_size q.page_no c =
          subst (λ (x : File). Holds x.content page_size q.page_no c) e' h in
        subst (λ (x : File). Holds x.content page_size q.page_no c) (sym e)
          (others q.page_no c (λ same. ne (ground (arith, rel, same))) there)
    | inr e ↦ subst (λ (x : File). Holds x.content page_size q.page_no c) (sym e) h
  ]

  put_pages :
      ((j : ℕ)
        → j ≢ id.page_no
        → peek f.content (j * page_size) page_size
          ≡ peek (content (handle dm id)) (j * page_size) page_size)
      → (q : PageId) → q ≢ id
      → page_at put q ≡ page_at dm q
  put_pages others q ne =
      let at : File → List ℕ = λ x. peek x.content (q.page_no * page_size) page_size in
      elim (put-cases q) [
        | inl (e, rel, e') ↦
            ap at e ∙ others q.page_no (λ same. ne (ground (arith, rel, same))) ∙ sym (ap at e')
        | inr e ↦ ap at e
      ]

module _ (hash : List ℕ → ℕ) (dm : DiskManager) (id : PageId) (buf : List ℕ)
    (full : length buf ≡ page_size) where
  -- `write_page` of a page of 4096 bytes never panics. Without an error the file has the page with its
  -- checksum; with or without one, every other page that a file has is as it was.
  pub write_page-Wrote : let r = write_page hash dm id buf in Wrote dm id (stamp hash buf) r.0.0 r.1
  unfolding write_page
  write_page-Wrote =
      let (dm', files, outcome) = get_relation-cases dm id in
      elim outcome [
        | inl e ↦
            let x = write_page_with_checksum hash (handle dm id) id.page_no buf in
            let (_, w) =
              write_page_with_checksum-Stores hash (handle dm id) id.page_no buf full
                (omega arith) in
            rw (e, write_page)
              (record {
                others = put_others dm dm' files id x.0.0.file w.others;
                pages = put_pages dm dm' files id x.0.0.file w.pages;
                answer = elim w.answer [
                  | inl (done, h, _) ↦ inl (
                    done,
                    subst (λ (y : File). Holds y.content page_size id.page_no (stamp hash buf))
                        (sym (put_here dm dm' files id x.0.0.file)) h,
                  )
                  | inr failed ↦ inr failed
                ];
              })
        | inr (e, failed) ↦
            rw (failed, write_page)
              (record {
                others = λ q c ne h.
                    subst (λ (x : File). Holds x.content page_size q.page_no c)
                      (sym (untouched dm dm' files id (handle dm id).file q)) h;
                pages = λ q _.
                    ap (λ (x : File). peek x.content (q.page_no * page_size) page_size)
                      (untouched dm dm' files id (handle dm id).file q);
                answer = inr (e, refl);
              })
      ]

  -- `read_page` into 4096 bytes never panics and changes no page. Without an error the buffer is the
  -- page of the file, and its checksum is right.
  pub read_page-Read : Read hash dm id (read_page hash dm id buf)
  unfolding read_page
  read_page-Read =
      let (dm', files, outcome) = get_relation-cases dm id in
      elim outcome [
        | inl e ↦
            let x = read_and_verify_page hash (handle dm id) id.page_no buf in
            let w =
              read_and_verify_page-Reads hash (handle dm id) id.page_no buf full (omega arith) in
            rw (e, read_page)
              (record {
                same = put_same dm dm' files id x.0.0.file w.same;
                answer = elim w.answer [
                  | inl good ↦ inl good
                  | inr (inl (s, c, b, r, _, _)) ↦ inr (_, r)
                  | inr (inr (inl (r, _))) ↦ inr (_, r)
                  | inr (inr (inr (inl (r, _)))) ↦ inr (_, r)
                  | inr (inr (inr (inr (n, c, r, _)))) ↦ inr (_, r)
                ];
              })
        | inr (e, failed) ↦
            rw (failed, read_page)
              (record {
                same = λ q.
                    ap (λ (x : File). x.content) (untouched dm dm' files id (handle dm id).file q);
                answer = inr (e, refl);
              })
      ]

-- A sequence of writes to the disk manager; their errors are dropped.
unfoldable pub writes : (List ℕ → ℕ) → DiskManager → List (PageId × List ℕ) → DiskManager
writes hash dm [] = dm
writes hash dm ((id, b) ∷ l) = writes hash (write_page hash dm id b).0.0 l

abbrev pub Full : List (PageId × List ℕ) → Type 0
Full = All (λ w. length w.1 ≡ page_size)

abbrev pub Spares : PageId → List (PageId × List ℕ) → Type 0
Spares id = All (λ w. w.0 ≢ id)

HoldsPage-writes :
    (hash : List ℕ → ℕ) (l : List (PageId × List ℕ)) (dm : DiskManager) (id : PageId) (b : List ℕ)
    → Full l
    → Spares id l
    → HoldsPage dm id b
    → HoldsPage (writes hash dm l) id b
unfolding writes
HoldsPage-writes hash [] dm id b full spares h = h
HoldsPage-writes hash ((q, c) ∷ l) dm id b (size, full) (ne, spares) h =
    let w = write_page-Wrote hash dm q c size in
    HoldsPage-writes hash l (write_page hash dm q c).0.0 id b full spares
      (w.others id b (λ e. ne (sym e)) h)

-- After a write of 4096 bytes that succeeds and any writes to other pages, which may fail, a read of
-- the page that succeeds gives the bytes that were written, with their checksum.
pub read-writes-write_page :
    (hash : List ℕ → ℕ) (dm : DiskManager) (id : PageId) (b dest : List ℕ)
    (l : List (PageId × List ℕ))
    → length b ≡ page_size
    → length dest ≡ page_size
    → Full l
    → Spares id l
    → (write_page hash dm id b).1 ≡ ok tt
    → let r = read_page hash (writes hash (write_page hash dm id b).0.0 l) id dest in
      ((r.1 ≡ ok tt) × (r.0.1 ≡ stamp hash b)) ⊎ ((e : Error) × (r.1 ≡ err e))
read-writes-write_page hash dm id b dest l size size' full spares done =
    let w = write_page-Wrote hash dm id b size in
    elim w.answer [
      | inr (e, failed) ↦ absurd (ground (arith, done, failed))
      | inl (_, h) ↦
          let (_, there) =
            HoldsPage-writes hash l (write_page hash dm id b).0.0 id (stamp hash b) full spares h in
          let r = read_page-Read hash (writes hash (write_page hash dm id b).0.0 l) id dest size' in
          elim r.answer [
            | inl (good, (_, is), _) ↦ inl (good, sym is ∙ there)
            | inr failed ↦ inr failed
          ]
    ]
