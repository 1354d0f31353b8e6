-- ===== src/ShardedPool/Moves.antt =====
-- Every piece of a thread in buffer_pool_v3.rs keeps the invariant.
use meridian_space_academy_c.Prelude.{ℕ, leb, ◌+◌, ◌^◌, ◌<◌, ◌≡◌, refl, sym, ap}
use meridian_space_academy_c.PageStore.{PageStore}
use meridian_space_academy_c.ShardedPool.{
  Shared, update, clear_dirty, finish_pending, flush_page, write_old, read_new,
}
use meridian_space_academy_c.ShardedPool.Agents.{
  Agent, idle, flushing, choosing, reserved, clean, fetched, failing, unpinned, Move, dirty_seen,
  flushed_page, flush_done, scanning, waiting, awaiting, ending, see_clean, see_dirty, flush_fails,
  clear, end, pass_over, wait_load, retry, wait_loading, wait_leaving, wait_evicting, wake, hit,
  miss, try, exhaust, give_up, write_back, write_fails, read, read_fails, take, remove, show,
  finish, put_back, unpin, drop_claim, write, drop, pin_valid, flush, flushed,
}
use meridian_space_academy_c.ShardedPool.Shape.{evicts, claims, leaves}
use meridian_space_academy_c.ShardedPool.Pins.{pins}
use meridian_space_academy_c.ShardedPool.Effects.{
  still, try_reserve-cases, flush_page-Rests, clear_dirty-Rests, finish_pending-Rests,
  write_old-Rests, read_new-Rests,
}
use meridian_space_academy_c.ShardedPool.Invariant.{Inv}
use meridian_space_academy_c.ShardedPool.Pieces.{
  hit-Inv, flush_pin-Inv, release-Inv, miss-Inv, unclaim-Inv, fill-Inv, guard_write-Inv, try-Inv,
  remove_old-Inv, publish-Inv, count_miss-Inv, restore-Inv, rests-Inv,
}

module _ {S : Type 0} (io : PageStore S) {n : ℕ} {p : Shared S} {ag : ℕ → Agent}
    (few : n + 1 < 2 ^ 32) (inv : Inv n p ag) (j : ℕ) (lt : j < n) where
  -- A piece of the thread `j` keeps the invariant.
  pub Move-Inv :
      (a : Agent) (p' : Shared S) (a' : Agent)
      → ag j ≡ a
      → Move io p j a p' a'
      → Inv n p' (update ag j a')
  Move-Inv a p' a' at (hit id i mode e) = hit-Inv few inv j lt id i mode at e
  Move-Inv a p' a' at (miss id mode e) = miss-Inv few inv j lt id mode at e
  Move-Inv a p' a' at (try id mode tries i snapshot more lt_i) =
      try-Inv few inv j lt id mode tries i at lt_i
        (try_reserve-cases p i j (leb p.frame_count tries) snapshot)
  Move-Inv a p' a' at (exhaust id mode tries e) =
      rests-Inv few inv j lt (choosing id mode tries) (scanning id mode 0) p at (still p) refl refl
        refl refl refl
  Move-Inv a p' a' at (pass_over id mode i lt_i e) =
      rests-Inv few inv j lt (scanning id mode i) (scanning id mode (i + 1)) p at (still p) refl
        refl refl refl refl
  Move-Inv a p' a' at (wait_load id mode i k lt_i e) =
      rests-Inv few inv j lt (scanning id mode i) (waiting id mode k (p.finished k)) p at (still p)
        refl refl refl refl refl
  Move-Inv a p' a' at (retry id mode k t e) =
      rests-Inv few inv j lt (waiting id mode k t) (choosing id mode 0) p at (still p) refl refl
        refl refl refl
  Move-Inv a p' a' at (give_up id mode i e) =
      unclaim-Inv few inv j lt id (ap claims at) (ap evicts at) (ap leaves at) (ap pins at)
  Move-Inv a p' a' at (wait_loading id k e) =
      rests-Inv few inv j lt (idle) (awaiting k (p.finished k)) p at (still p) refl refl refl refl
        refl
  Move-Inv a p' a' at (wait_leaving id k e) =
      rests-Inv few inv j lt (idle) (awaiting k (p.finished k)) p at (still p) refl refl refl refl
        refl
  Move-Inv a p' a' at (wait_evicting i k lt_i e) =
      rests-Inv few inv j lt (idle) (awaiting k (p.finished k)) p at (still p) refl refl refl refl
        refl
  Move-Inv a p' a' at (wake k t e) =
      rests-Inv few inv j lt (awaiting k t) (idle) p at (still p) refl refl refl refl refl
  Move-Inv a p' a' at (write_back id mode v e) =
      rests-Inv few inv j lt (reserved id mode v) (clean id mode v) (write_old io p v).0 at
        (write_old-Rests io p v) refl refl refl refl refl
  Move-Inv a p' a' at (write_fails id mode v c e) =
      rests-Inv few inv j lt (reserved id mode v) (failing id v) (write_old io p v).0 at
        (write_old-Rests io p v) refl refl refl refl refl
  Move-Inv a p' a' at (read id mode v b e) =
      rests-Inv few inv j lt (clean id mode v) (fetched id mode v b) (read_new io p id).0 at
        (read_new-Rests io p id) refl refl refl refl refl
  Move-Inv a p' a' at (read_fails id mode v c e) =
      rests-Inv few inv j lt (clean id mode v) (failing id v) (read_new io p id).0 at
        (read_new-Rests io p id) refl refl refl refl refl
  Move-Inv a p' a' at (take id mode v b unread) = fill-Inv few inv j lt id mode v b at
  Move-Inv a p' a' at (remove id v) = remove_old-Inv few inv j lt id v.index v.old_page_id at
  Move-Inv a p' a' at (show id v) = publish-Inv few inv j lt id v at
  Move-Inv a p' a' at (finish id v) = count_miss-Inv few inv j lt id v at
  Move-Inv a p' a' at (put_back id v q e) = restore-Inv few inv j lt id v q at e
  Move-Inv a p' a' at (unpin id v) =
      release-Inv few inv j lt v.index (unpinned id) (ap pins at) refl refl (sym (ap evicts at))
        (sym (ap claims at)) (sym (ap leaves at))
  Move-Inv a p' a' at (drop_claim id) =
      unclaim-Inv few inv j lt id (ap claims at) (ap evicts at) (ap leaves at) (ap pins at)
  Move-Inv a p' a' at (write id i b unread) = guard_write-Inv few inv j lt id i b at
  Move-Inv a p' a' at (drop id i) =
      release-Inv few inv j lt i idle (ap pins at) refl refl (sym (ap evicts at))
        (sym (ap claims at)) (sym (ap leaves at))
  Move-Inv a p' a' at (pin_valid id i lt_i e) = flush_pin-Inv few inv j lt id i at e
  Move-Inv a p' a' at (see_clean id i e) =
      rests-Inv few inv j lt (flushing id i) (flush_done id i) p at (still p) refl refl refl refl
        refl
  Move-Inv a p' a' at (see_dirty id i e) =
      rests-Inv few inv j lt (flushing id i) (dirty_seen id i) p at (still p) refl refl refl refl
        refl
  Move-Inv a p' a' at (flush id i e) =
      rests-Inv few inv j lt (dirty_seen id i) (flushed_page id i) (flush_page io p id i).0 at
        (flush_page-Rests io p id i) refl refl refl refl refl
  Move-Inv a p' a' at (flush_fails id i c e) =
      rests-Inv few inv j lt (dirty_seen id i) (flush_done id i) (flush_page io p id i).0 at
        (flush_page-Rests io p id i) refl refl refl refl refl
  Move-Inv a p' a' at (clear id i) =
      rests-Inv few inv j lt (flushed_page id i) (flush_done id i) (clear_dirty p i) at
        (clear_dirty-Rests p i) refl refl refl refl refl
  Move-Inv a p' a' at end =
      rests-Inv few inv j lt (ending) (idle) (finish_pending p j) at (finish_pending-Rests p j) refl
        refl refl refl refl
  Move-Inv a p' a' at (flushed id i) =
      release-Inv few inv j lt i idle (ap pins at) refl refl (sym (ap evicts at))
        (sym (ap claims at)) (sym (ap leaves at))
