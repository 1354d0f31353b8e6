-- ===== src/AtomicPool/Tests.antt =====
-- project1/buffer_pool_v2.rs over a store in memory that refuses one page.
use meridian_space_academy_c.Prelude.{ℕ, ◌≡◌, List, [], ◌∷◌, replicate, ◌==◌, if◌then◌else◌, arith}
use meridian_space_academy_c.Result.{Result, ok, err, device, ◌>>=◌}
use meridian_space_academy_c.PageStore.{PageId, PageStore, same_page}
use meridian_space_academy_c.ClockPool.{
  BufferPoolInner, BufferPoolShared, normal, bulk_read, empty_frame,
}
use meridian_space_academy_c.ClockPool
use meridian_space_academy_c.AtomicPool.{new, fetch_locked, fetch_page}
use meridian_space_academy_c.AtomicPool.Recall.{recall_pool}
use meridian_space_academy_c.AtomicPool.Fetch.{Calm, recall_answer, fetch_page-recall}
use meridian_space_academy_c.AtomicPool.Run.{
  Call, fetch, flush, read, write, drop, run, run_v2, run-new-recall,
}

abbrev Memory : Type 0
Memory = PageId → List ℕ

abbrev answer : ℕ → List ℕ → Result (List ℕ)
answer n bytes = if n == 7 then err (device 5) else ok bytes

abbrev memory : PageStore Memory
memory = record {
  read_page = λ s id. (s, answer id.page_no (s id));
  write_page = λ s id bytes. (λ q. if same_page id q then bytes else s q, ok tt);
}

memory-Calm : Calm memory
memory-Calm = record {
  reads = λ s id e. ground (arith, e);
  writes = λ s id bytes e. ground (arith, e);
}

abbrev blank : Memory
blank q = replicate q.page_no 0

abbrev page : ℕ → PageId
page n = record { relation_id = 0; page_no = n }

abbrev start : BufferPoolShared Memory
start = record {
  store = blank;
  inner = record {
    frames = replicate 2 empty_frame;
    page_table = [];
    clock_hand = 0;
    stats = record { hits = 0; misses = 0; evictions = 0; clock_second_chances = 0 };
  };
}

fetch_page-recall_example :
    (fetch_locked memory (recall_pool start) (page 1) normal
      ≡ recall_answer (ClockPool.fetch_page memory start (page 1) normal))
    × (fetch_page memory (recall_pool start) (page 1) normal
        ≡ recall_answer (ClockPool.fetch_page memory start (page 1) normal))
fetch_page-recall_example = fetch_page-recall memory memory-Calm (page 1) start normal

-- One frame: a page is written and given up for another, after the store refused a third one.
abbrev calls : List Call
calls =
    fetch (page 1) normal
    ∷ write (record { page_id = page 1; frame = 0 }) (λ b. 9 ∷ b)
    ∷ drop (record { page_id = page 1; frame = 0 })
    ∷ fetch (page 7) bulk_read
    ∷ fetch (page 2) bulk_read
    ∷ read (record { page_id = page 2; frame = 0 }) (λ b. b)
    ∷ flush
    ∷ []

run-new-recall_example :
    (new 1 blank >>= λ p. ok (run_v2 memory p calls))
    ≡ (ClockPool.new 1 blank >>= λ p. ok (run memory p calls))
run-new-recall_example = run-new-recall memory memory-Calm 1 blank calls
