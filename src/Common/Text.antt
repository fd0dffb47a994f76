-- ===== src/Common/Text.antt =====
-- Byte strings: the bytes of a C string before its NUL, and the functions of <string.h> on them.
-- A pointer into a string is an index, and a null result is `none`.
use Prim.Native.Nat.{ℕ, zero, suc, ◌+◌, ◌-◌, ◌≤◌}
use Prim.Native.Char.{code}
use Prim.Native.String.{String}
use mathlib.Core.Path.{◌≡◌, refl, ap}
use mathlib.Core.Logic.{inl, inr}
use mathlib.Core.Bool.{Bool, true, false, ◌&&◌, ◌||◌}
use mathlib.Core.Option
use mathlib.Core.Option.{Option, none, some}
use mathlib.Core.List.{List, [], ◌∷◌, ◌++◌}
use native.Mathlib.Omega.{arith}
use cn_cw.Common.Tests.{◌==◌, ==→eq, Bool-cases, Option-cases, if◌then◌else◌}
use cn_cw.Common.Lists.{length, length-append, replicate}

abbrev pub Bytes : Type 0
Bytes = List ℕ

-- The bytes of an ASCII literal.
abbrev pub codes : String → Bytes
codes String.[] = []
codes (String.◌∷◌ c s) = code c ∷ codes s

abbrev pub has : ℕ → Bytes → Bool
has c [] = false
has c (x ∷ xs) = (x == c) || has c xs

-- The text of a format: its pieces, one behind the other.
abbrev pub join : List Bytes → Bytes
join [] = []
join (s ∷ ss) = s ++ join ss

abbrev join_length : List Bytes → ℕ
join_length [] = 0
join_length (s ∷ ss) = length s + join_length ss

pub length-join : (ss : List Bytes) → length (join ss) ≡ join_length ss
length-join [] = refl
length-join (s ∷ ss) = omega (arith, length-append s (join ss), length-join ss)

-- `strcmp(s, t) == 0`, and `memcmp` on two stretches of one length.
abbrev pub bytes_eq : Bytes → Bytes → Bool
bytes_eq [] [] = true
bytes_eq [] (y ∷ ys) = false
bytes_eq (x ∷ xs) [] = false
bytes_eq (x ∷ xs) (y ∷ ys) = (x == y) && bytes_eq xs ys

-- `strchr`, and `strpbrk` with a set of one byte.
unfoldable pub strchr : Bytes → ℕ → Option ℕ
strchr [] c = none
strchr (x ∷ xs) c = if x == c then some 0 else Option.map suc (strchr xs c)

-- `strspn` with a set of one byte.
unfoldable pub strspn : Bytes → ℕ → ℕ
strspn [] c = 0
strspn (x ∷ xs) c = if x == c then suc (strspn xs c) else 0

pub bytes_eq→eq : (s t : Bytes) → bytes_eq s t ≡ true → s ≡ t
bytes_eq→eq [] [] h = refl
bytes_eq→eq [] (y ∷ ys) h = cc
bytes_eq→eq (x ∷ xs) [] h = cc
bytes_eq→eq (x ∷ xs) (y ∷ ys) h = ground (arith, bytes_eq→eq xs ys)

pub bytes_eq_self : (s : Bytes) → bytes_eq s s ≡ true
bytes_eq_self [] = refl
bytes_eq_self (x ∷ xs) = ground (arith, bytes_eq_self xs)

pub has-append : (c : ℕ) (xs ys : Bytes) → has c (xs ++ ys) ≡ (has c xs || has c ys)
has-append c [] ys = refl
has-append c (x ∷ xs) ys = ground (arith, has-append c xs ys)

pub has-replicate : (c x n : ℕ) → (x == c) ≡ false → has c (replicate n x) ≡ false
has-replicate c x zero h = refl
has-replicate c x (suc n) h = ground (arith, has-replicate c x n)

-- A search passes over a stretch that lacks the byte.
pub strchr-append :
    (c : ℕ) (xs ys : Bytes)
    → has c xs ≡ false
    → strchr (xs ++ ys) c ≡ Option.map (λ n. length xs + n) (strchr ys c)
unfolding strchr
strchr-append c [] ys h = ground arith
strchr-append c (x ∷ xs) ys h = ground (arith, strchr-append c xs ys)

-- The first occurrence.
pub strchr_found :
    (c : ℕ) (xs ys : Bytes) → has c xs ≡ false → strchr (xs ++ c ∷ ys) c ≡ some (length xs)
unfolding strchr
strchr_found c [] ys h = ground arith
strchr_found c (x ∷ xs) ys h = ground (arith, strchr_found c xs ys)

pub record FirstAt (c n : ℕ) (s : Bytes) : Type 0 where
  pub before : Bytes
  pub after : Bytes
  pub splits : s ≡ before ++ c ∷ after
  pub index : length before ≡ n
  pub lacks : has c before ≡ false

FirstAt-cons :
    {c x n : ℕ} {xs : Bytes} → (x == c) ≡ false → FirstAt c n xs → FirstAt c (suc n) (x ∷ xs)
FirstAt-cons {x} ne f = record {
  before = x ∷ f.before;
  after = f.after;
  splits = ap (◌∷◌ x) f.splits;
  index = ap suc f.index;
  lacks = ground (arith, f.lacks);
}

pub strchr-FirstAt : (s : Bytes) (c : ℕ) {n : ℕ} → strchr s c ≡ some n → FirstAt c n s
unfolding strchr
strchr-FirstAt [] c h = cc
strchr-FirstAt (x ∷ xs) c h = elim (Bool-cases (x == c)) [
  | inl eq ↦ record {
    before = [];
    after = xs;
    splits = ap (λ b. b ∷ xs) (==→eq x c eq);
    index = ground arith;
    lacks = refl;
  }
  | inr ne ↦ elim (Option-cases (strchr xs c)) [
    | inl e ↦ ground arith
    | inr (m, e) ↦
        let f = FirstAt-cons ne (strchr-FirstAt xs c e) in
        record {
          before = f.before;
          after = f.after;
          splits = f.splits;
          index = ground (arith, f.index);
          lacks = f.lacks;
        }
  ]
]

strchr-none : (s : Bytes) (c : ℕ) → has c s ≡ false → strchr s c ≡ none
unfolding strchr
strchr-none [] c h = refl
strchr-none (x ∷ xs) c h = ground (arith, strchr-none xs c)

-- A hit at or behind the end of a prefix is a hit in what follows it.
pub strchr-append_ge :
    (c : ℕ) (xs ys : Bytes) {n : ℕ}
    → strchr (xs ++ ys) c ≡ some n
    → length xs ≤ n
    → (has c xs ≡ false) × (strchr ys c ≡ some (n - length xs))
unfolding strchr
strchr-append_ge c [] ys h le = ground arith
strchr-append_ge c (x ∷ xs) ys {n} h le = elim (Option-cases (strchr (xs ++ ys) c)) [
  | inl e ↦ ground arith
  | inr (m, e) ↦ ground (arith, strchr-append_ge c xs ys {n = m} e)
]

pub strspn-replicate : (c n : ℕ) (ys : Bytes) → strspn ys c ≡ 0 → strspn (replicate n c ++ ys) c ≡ n
unfolding strspn
strspn-replicate c zero ys h = h
strspn-replicate c (suc n) ys h = ground (arith, strspn-replicate c n ys h)

pub strspn_split :
    (s : Bytes) (c : ℕ) → (ys : Bytes) × (s ≡ replicate (strspn s c) c ++ ys) × (strspn ys c ≡ 0)
unfolding strspn
strspn_split [] c = ([], refl, refl)
strspn_split (x ∷ xs) c = elim (Bool-cases (x == c)) [
  | inl eq ↦ let (ys, e, z) = strspn_split xs c in (ys, ground (arith, e), z)
  | inr ne ↦ (x ∷ xs, rw ne, rw ne)
]
