-- ===== src/Handler/Paths.antt =====
-- The paths that src/handler.c takes from a URI, and the test that keeps them in the static
-- directory.
use cn_cw.Common.{
  ℕ, ◌+◌, ◌≡◌, ◌↔◌, sym, ap, ◌∙◌, inl, inr, true, Option, none, some, ◌∷◌, ◌++◌, Bool-cases, Bytes,
  bytes_eq→eq, bytes_eq_self, length, take, drop, take-append, take-append-drop,
}
use cn_cw.Conn.{Conn, HttpHeader, ServerSettings}
use cn_cw.Format.{snprintf}
use cn_cw.Handler.{State}
use cn_cw.Handler.Serve.{
  in_static_dir, requested_name, copy_path, arena_copy, resolved, resolve_path,
}
use cn_cw.Machine.{Arena}
use cn_cw.Memory.{request_memory}
use cn_cw.Outcome.{
  Outcome, returns, jumps, exits, asserts, overruns, spins, and_then, Leaves, Leaves-and_then,
}
use cn_cw.PgList.{PgList}
use cn_cw.Platform.{Platform, Answer, got, failed}

-- The test for the static directory passes exactly the paths that begin with the directory's
-- name, whatever follows the name, a separator or not.
pub in_static_dir-Prefix :
    (static_dir full_path : Bytes)
    → (in_static_dir static_dir full_path ≡ true)
      ↔ ((rest : Bytes) × (full_path ≡ static_dir ++ rest))
unfolding in_static_dir
in_static_dir-Prefix static_dir full_path = (
  λ h.
      let same = bytes_eq→eq (take (length static_dir) full_path) static_dir h in
      (
        drop (length static_dir) full_path,
        sym (take-append-drop (length static_dir) full_path)
            ∙ ap (λ s. s ++ drop (length static_dir) full_path) same,
      ),
  λ (rest, e). rw (e, take-append static_dir rest) (bytes_eq_self static_dir),
)

-- A path that is handed out begins with the directory's name.
abbrev pub Inside : {S : Type 0} → Bytes → Option Bytes → S → Type 0
Inside static_dir none m = Unit
Inside static_dir (some path) m = (rest : Bytes) × (path ≡ static_dir ++ rest)

module _ (platform : Platform) where
  open platform use {Os, realpath, free}

  -- Nothing is said of a command that has no part in the path.
  Leaves-any :
      {A : Type 0} (o : Outcome (State platform) A) → Leaves (λ _ _. Unit {0}) (λ _. Unit {0}) o
  Leaves-any (returns a s) = tt
  Leaves-any (jumps s) = tt
  Leaves-any (exits f s) = tt
  Leaves-any (asserts f s) = tt
  Leaves-any (overruns s) = tt
  Leaves-any (spins s) = tt

  then_none :
      {A : Type 0} (static_dir : Bytes) (o : Outcome (State platform) A)
      (k : State platform → State platform)
      → Leaves (Inside static_dir) (λ _. Unit {0}) (and_then o (λ _ m'. returns none (k m')))
  then_none static_dir o k =
      Leaves-and_then (λ _ _. Unit {0}) (λ _. Unit {0}) (Inside static_dir) (λ _. Unit {0}) o _
        (Leaves-any o) (λ s h. tt) (λ a s h. tt)

  module _ (headers : PgList Os HttpHeader Conn) (fuel : ℕ) where
    copy_path-Inside :
        (static_dir rest : Bytes) (p : ℕ) (full_path : Bytes) (r : Option ℕ) (m : State platform)
        → full_path ≡ static_dir ++ rest
        → Leaves
            (Inside static_dir)
            (λ _. Unit {0})
            (copy_path platform headers fuel p full_path r m)
    unfolding copy_path
    copy_path-Inside static_dir rest p full_path none m e = then_none static_dir _ (λ m'. m')
    copy_path-Inside static_dir rest p full_path (some _) m e = (rest, e)

    arena_copy-Inside :
        (static_dir rest : Bytes) (p : ℕ) (full_path : Bytes) (arena : Option Arena)
        (m : State platform)
        → full_path ≡ static_dir ++ rest
        → Leaves
            (Inside static_dir)
            (λ _. Unit {0})
            (arena_copy platform headers fuel p full_path arena m)
    unfolding arena_copy
    arena_copy-Inside static_dir rest p full_path none m e = tt
    arena_copy-Inside static_dir rest p full_path (some arena) m e =
        Leaves-and_then (λ _ _. Unit {0}) (λ _. Unit {0}) (Inside static_dir) (λ _. Unit {0}) _ _
          (Leaves-any (request_memory platform (some arena) (length full_path + 1) m)) (λ s h. tt)
          (λ r m' h. copy_path-Inside static_dir rest p full_path r m' e)

    resolved-Inside :
        (settings : ServerSettings) (r : Answer (ℕ × Bytes) × Os) (m : State platform)
        → Leaves
            (Inside settings.static_dir)
            (λ _. Unit {0})
            (resolved platform headers fuel settings r m)
    unfolding resolved
    resolved-Inside settings (failed err, os) m = then_none settings.static_dir _ (λ m'. m')
    resolved-Inside settings (got (p, full_path), os) m =
        elim (Bool-cases (in_static_dir settings.static_dir full_path)) [
          | inl inside ↦
              let (rest, e) = (in_static_dir-Prefix settings.static_dir full_path).0 inside in
              rw inside (
                arena_copy-Inside settings.static_dir rest p full_path m.g_memory_arena
                  (record m { os = os }) e)
          | inr outside ↦
              rw outside (then_none settings.static_dir _ (λ m'. record m' { os = free p m'.os }))
        ]

    -- Whatever the URI is and whatever `realpath` makes of it, a path that `resolve_path` hands
    -- out begins with the name of the static directory.
    pub resolve_path-Inside :
        (uri : Bytes) (settings : ServerSettings) (m : State platform)
        → Leaves
            (Inside settings.static_dir)
            (λ _. Unit {0})
            (resolve_path platform headers fuel uri settings m)
    unfolding resolve_path
    resolve_path-Inside uri settings m =
        resolved-Inside settings
          (realpath (snprintf 4096 (settings.static_dir ++ b'/' ∷ requested_name uri)).0 m.os) m
