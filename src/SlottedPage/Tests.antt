-- ===== src/SlottedPage/Tests.antt =====
-- part3/slotted_page.rs on concrete pages.
use meridian_space_academy_c.Prelude.{◌≡◌, ◌<◌, ◌≤◌, ◌⊎◌, none, List, [], ◌∷◌, arith}
use meridian_space_academy_c.Result.{ok, ◌>>=◌}
use meridian_space_academy_c.Page.{Page}
use meridian_space_academy_c.Page
use meridian_space_academy_c.Page.Valid.{IsValid}
use meridian_space_academy_c.SlottedPage.{SlottedPage, new, free_space, insert}
use meridian_space_academy_c.SlottedPage.Agree.{insert-eq}
use meridian_space_academy_c.SlottedPage.Fresh.{
  Unusable, new-Unusable, Call, inserts, deletes, compacts, run, run-new-IsValid,
}

abbrev calls : List Call
calls = inserts (1 ∷ []) ∷ compacts ∷ inserts (1 ∷ 2 ∷ []) ∷ deletes 0 ∷ inserts (3 ∷ []) ∷ []

run-IsValid : (p : SlottedPage) × ((new 7 >>= λ q. run q calls) ≡ ok p) × IsValid p
run-IsValid = run-new-IsValid 7 calls (omega arith)

new-Unusable_example : (p : SlottedPage) × (new 7 ≡ ok p) × Unusable p
new-Unusable_example = new-Unusable 7 (omega arith)

abbrev page : Page
page = run-IsValid.0

insert-eq_example :
    ((free_space page < 6) × (insert page (8 ∷ 9 ∷ []) ≡ ok (page, none)))
    ⊎ ((6 ≤ free_space page) × (insert page (8 ∷ 9 ∷ []) ≡ Page.insert page (8 ∷ 9 ∷ [])))
insert-eq_example = insert-eq page (8 ∷ 9 ∷ []) run-IsValid.2
