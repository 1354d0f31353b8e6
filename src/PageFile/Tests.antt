-- ===== src/PageFile/Tests.antt =====
-- part1/page.rs on a file of small pages.
use meridian_space_academy_c.Prelude.{ℕ, List, replicate}

abbrev hash : List ℕ → ℕ
hash b = 258

abbrev bytes : List ℕ
bytes = replicate 40 1
