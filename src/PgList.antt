-- ===== src/PgList.antt =====
-- The calls of the list package (src/pg_list.h), as an interface: `foreach` with `lfirst` visits
-- `elements`, and `lappend` works on the memory that the server's state holds.
use cn_cw.Common.{◌≡◌, List, [], ◌∷◌, ◌++◌}
use cn_cw.Machine.{Machine}
use cn_cw.Outcome.{SourceFile, memory_c, exits, Cmd, Ensures}

pub record PgList (Os A C : Type 0) : Type 1 where
  pub Cells : Type 0
  pub nil : Cells
  pub elements : Cells → List A
  pub lappend : Cells → A → Cmd (Machine Os C) Cells
  pub list_free : Cells → Machine Os C → Machine Os C

-- What the package documents: NIL is empty, and `lappend` puts the element at the end, leaves the
-- caller's object alone, and may only fail by running out of memory.
pub record Appends {Os A C : Type 0} (p : PgList Os A C) : Type 0 where
  pub elements-nil : p.elements p.nil ≡ []
  pub elements-lappend :
      (l : p.Cells) (a : A) (m : Machine Os C)
      → Ensures
          (λ l' m'. (p.elements l' ≡ p.elements l ++ a ∷ []) × (m'.client ≡ m.client))
          (λ _. ⊥)
          (λ _. Unit {0})
          (p.lappend l a m)
  -- It allocates by `server_alloc`, which is what exits.
  pub exits_in_memory :
      (l : p.Cells) (a : A) (m : Machine Os C) (f : SourceFile) (m' : Machine Os C)
      → p.lappend l a m ≡ exits f m'
      → f ≡ memory_c
