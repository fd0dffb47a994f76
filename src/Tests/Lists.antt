-- ===== src/Tests/Lists.antt =====
-- The list package for the examples: lists as lists.
use cn_cw.Common.{refl, List, [], ◌∷◌, ◌++◌}
use cn_cw.Outcome.{returns}
use cn_cw.PgList.{PgList, Appends}
use cn_cw.Tests.Toy.{ToyOs}

abbrev pub lists : {A C : Type 0} → PgList ToyOs A C
lists {A} {C} = record {
  Cells = List A;
  nil = [];
  elements = λ l. l;
  lappend = λ l h m. returns (l ++ h ∷ []) m;
  list_free = λ l m. m;
}

pub lists_append : {A C : Type 0} → Appends (lists {A = A} {C = C})
lists_append = record {
  elements-nil = refl;
  elements-lappend = λ l a m. (refl, refl);
  exits_in_memory = λ l a m f m2 e. cc;
}
