-- ===== src/Http/Request/Pieces.antt =====
-- The pieces of a string in which `parse_http_req` (src/http.c) found its pointers, and how they make
-- up a request line.
use cn_cw.Common.{
  ℕ, suc, ◌+◌, ◌<◌, ◌≤◌, ◌≡◌, ◌≢◌, refl, sym, ap, subst, ◌∙◌, inl, inr, false, some, [], ◌∷◌, ◌++◌,
  append_assoc, arith, ◌==◌, Bytes, has, has-append, length, drop, take, replicate, strchr, strspn,
  FirstAt, strchr-FirstAt, strchr-append_ge, strspn_split, take-append, drop-append,
  drop-append_add, take-append-drop, length-replicate, length-append, length-drop, length-take,
  Option-cases,
}
use cn_cw.Http.{HttpReq, HttpVersion}
use cn_cw.Http.Request.{version_str, IsRequest}
use cn_cw.Http.Tables.{http_method_str}

-- The pieces of a string in which the pointers stand as the parser found them.
pub record Pieces (str : Bytes) (line_end uri_len skip : ℕ) : Type 0 where
  pub method_part : Bytes
  pub pad : ℕ
  pub uri_part : Bytes
  pub behind : Bytes
  pub splits : str ≡ method_part ++ (replicate (suc pad) b' ' ++ (uri_part ++ b' ' ∷ behind))
  pub skip_is : skip ≡ suc pad
  pub uri_len_is : length uri_part ≡ uri_len
  pub uri_lacks_space : has b' ' uri_part ≡ false
  pub uri_lacks_return : has b'\r' uri_part ≡ false
  pub uri_starts : strspn (uri_part ++ b' ' ∷ behind) b' ' ≡ 0
  pub returns_behind :
      (n : ℕ) × (strchr behind b'\r' ≡ some n)
      × (line_end ≡ length method_part + suc pad + uri_len + 1 + n)

strchr-cons_ne :
    (c x : ℕ) (xs : Bytes) {n : ℕ}
    → (x == c) ≡ false
    → strchr (x ∷ xs) c ≡ some n
    → (k : ℕ) × (strchr xs c ≡ some k) × (n ≡ 1 + k)
unfolding strchr
strchr-cons_ne c x xs {n} ne h = elim (Option-cases (strchr xs c)) [
  | inl e ↦ ground arith
  | inr (k, e) ↦ (k, e, ground arith)
]

-- The return behind the URI, by skipping what stands in front of it.
return_behind :
    (m s u b : Bytes) (line_end : ℕ)
    → strchr (m ++ (s ++ (u ++ b' ' ∷ b))) b'\r' ≡ some line_end
    → length m + length s + length u ≤ line_end
    → (has b'\r' u ≡ false)
      × ((n : ℕ) × (strchr b b'\r' ≡ some n) × (line_end ≡ length m + length s + length u + 1 + n))
return_behind m s u b line_end e le =
    let (_, e1) = strchr-append_ge b'\r' m (s ++ (u ++ b' ' ∷ b)) e (omega arith) in
    let (_, e2) = strchr-append_ge b'\r' s (u ++ b' ' ∷ b) e1 (omega arith) in
    let (hu, e3) = strchr-append_ge b'\r' u (b' ' ∷ b) e2 (omega arith) in
    let (k, ek, n) = strchr-cons_ne b'\r' b' ' b refl e3 in (hu, (k, ek, omega arith))

skip_spaces :
    {str : Bytes} {n : ℕ} (f : FirstAt b' ' n str)
    → strspn (drop n str) b' ' ≡ suc (strspn f.after b' ')
unfolding strspn
skip_spaces {str} {n} f =
    ap (λ s. strspn s b' ')
      (subst (λ k. drop k str ≡ b' ' ∷ f.after) f.index
        (ap (drop (length f.before)) f.splits ∙ drop-append f.before _))

pub pieces :
    (str : Bytes) (line_end method_end uri_len : ℕ)
    → strchr str b'\r' ≡ some line_end
    → strchr str b' ' ≡ some method_end
    → strchr (drop (method_end + strspn (drop method_end str) b' ') str) b' ' ≡ some uri_len
    → method_end + strspn (drop method_end str) b' ' + uri_len ≤ line_end
    → (p : Pieces str line_end uri_len (strspn (drop method_end str) b' ')) × (p.method_part
        ≡ take method_end str)
      × (length p.method_part ≡ method_end)
pieces str line_end method_end uri_len e1 e2 e4 le =
    let f = strchr-FirstAt str b' ' e2 in
    let pad = strspn f.after b' ' in
    let (ys, split, stop) = strspn_split f.after b' ' in
    let skip : strspn (drop method_end str) b' ' ≡ suc pad = skip_spaces f in
    let spaced : str ≡ f.before ++ (replicate (suc pad) b' ' ++ ys) =
      f.splits ∙ ap (λ t. f.before ++ b' ' ∷ t) split in
    let rest : drop (method_end + suc pad) str ≡ ys =
      ap (drop (method_end + suc pad)) spaced
      ∙ drop-append_add f.before _ _ (suc pad) (omega (arith, f.index))
      ∙ drop-append_add (replicate (suc pad) b' ') ys (suc pad) 0
          (omega (arith, length-replicate {A = ℕ} (suc pad) b' ')) in
    let at : strchr ys b' ' ≡ some uri_len = rw (skip, rest) at e4 in
    let g = strchr-FirstAt ys b' ' at in
    let whole : str ≡ f.before ++ (replicate (suc pad) b' ' ++ (g.before ++ b' ' ∷ g.after)) =
      spaced ∙ ap (λ t. f.before ++ (replicate (suc pad) b' ' ++ t)) g.splits in
    let (lacks, returned) =
      return_behind f.before (replicate (suc pad) b' ') g.before g.after line_end
        (subst (λ t. strchr t b'\r' ≡ some line_end) whole e1)
        (omega (
          arith,
          length-replicate {A = ℕ} (suc pad) b' ',
          f.index,
          g.index,
          subst (λ k. method_end + k + uri_len ≤ line_end) skip le,
        )) in
    let (n, en, line) = returned in
    (
      record {
        method_part = f.before;
        pad = pad;
        uri_part = g.before;
        behind = g.after;
        splits = whole;
        skip_is = skip;
        uri_len_is = g.index;
        uri_lacks_space = g.lacks;
        uri_lacks_return = lacks;
        uri_starts = subst (λ t. strspn t b' ' ≡ 0) g.splits stop;
        returns_behind =
            (n, en, omega (arith, line, length-replicate {A = ℕ} (suc pad) b' ', g.index));
      },
      sym (
          subst (λ k. take k str ≡ f.before) f.index
            (ap (take (length f.before)) f.splits ∙ take-append f.before _)),
      f.index,
    )

-- The version, eight bytes in front of the return, and the gap in front of it.
version_behind :
    (behind : Bytes) (pad n : ℕ) (version : HttpVersion)
    → strchr behind b'\r' ≡ some n
    → n ≡ pad + 8
    → take 8 (drop pad behind) ≡ version_str version
    → (gap rest : Bytes) × (behind ≡ gap ++ (version_str version ++ b'\r' ∷ rest))
      × (length gap ≡ pad)
      × (has b'\r' gap ≡ false)
version_behind behind pad n version en len eight =
    let w = strchr-FirstAt behind b'\r' en in
    let gap = take pad w.before in
    let v = drop pad w.before in
    let joined : gap ++ v ≡ w.before = take-append-drop pad w.before in
    let whole : behind ≡ gap ++ (v ++ b'\r' ∷ w.after) =
      w.splits ∙ ap (λ t. t ++ b'\r' ∷ w.after) (sym joined) ∙ append_assoc gap v _ in
    let gap_length : length gap ≡ pad = omega (arith, length-take pad w.before, w.index) in
    let v_length : length v ≡ 8 = omega (arith, length-drop pad w.before, w.index) in
    let tail : drop pad behind ≡ v ++ b'\r' ∷ w.after =
      ap (drop pad) whole ∙ drop-append_add gap _ pad 0 (omega arith) in
    let is_version : v ≡ version_str version =
      sym (subst (λ k. take k (v ++ b'\r' ∷ w.after) ≡ v) v_length (take-append v _))
      ∙ sym (ap (take 8) tail)
      ∙ eight in
    (
      gap,
      w.after,
      whole ∙ ap (λ t. gap ++ (t ++ b'\r' ∷ w.after)) is_version,
      gap_length,
      ground (arith, has-append b'\r' gap v, joined, w.lacks, ap (has b'\r') joined),
    )

-- What stands behind the URI and the space after it.
pub drop-Pieces :
    {str : Bytes} {line_end uri_len skip : ℕ} (p : Pieces str line_end uri_len skip) (k : ℕ)
    → drop (length p.method_part + skip + uri_len + suc k) str ≡ drop k p.behind
drop-Pieces {str} {line_end} {uri_len} {skip} p k =
    ap (drop (length p.method_part + skip + uri_len + suc k)) p.splits
    ∙ drop-append_add p.method_part _ _ (suc p.pad + (uri_len + suc k)) (omega (arith, p.skip_is))
    ∙ drop-append_add (replicate (suc p.pad) b' ') _ _ (uri_len + suc k)
        (omega (arith, length-replicate {A = ℕ} (suc p.pad) b' '))
    ∙ drop-append_add p.uri_part _ _ (suc k) (omega (arith, p.uri_len_is))

pub take-Pieces :
    {str : Bytes} {line_end uri_len skip : ℕ} (p : Pieces str line_end uri_len skip)
    → take uri_len (drop (length p.method_part + skip) str) ≡ p.uri_part
take-Pieces {str} {line_end} {uri_len} {skip} p =
    ap (λ t. take uri_len (drop (length p.method_part + skip) t)) p.splits
    ∙ ap (take uri_len) (
        drop-append_add p.method_part _ _ (suc p.pad) (omega (arith, p.skip_is))
        ∙ drop-append_add (replicate (suc p.pad) b' ') _ (suc p.pad) 0
            (omega (arith, length-replicate {A = ℕ} (suc p.pad) b' ')))
    ∙ subst (λ k. take k (p.uri_part ++ b' ' ∷ p.behind) ≡ p.uri_part) p.uri_len_is
        (take-append p.uri_part _)

pub uri-ne-nil : (u b : Bytes) → strspn (u ++ b' ' ∷ b) b' ' ≡ 0 → u ≢ []
unfolding strspn
uri-ne-nil [] b h = absurd (omega arith)
uri-ne-nil (x ∷ xs) b h = λ e. cc

pub strchr-lt : (s : Bytes) (c : ℕ) {n : ℕ} → strchr s c ≡ some n → n < length s
strchr-lt s c e =
    let f = strchr-FirstAt s c e in
    omega (arith, f.index, ap length f.splits, length-append f.before (c ∷ f.after))

-- The pieces, with the version behind them, are a request line.
pub IsRequest-Pieces :
    {str : Bytes} {line_end uri_len skip : ℕ} (p : Pieces str line_end uri_len skip) (req : HttpReq)
    (n : ℕ)
    → http_method_str req.method ≡ p.method_part
    → req.uri ≡ p.uri_part
    → strchr p.behind b'\r' ≡ some n
    → n ≡ p.pad + 8
    → take 8 (drop p.pad p.behind) ≡ version_str req.version
    → IsRequest str req
IsRequest-Pieces p req n method_is uri_is en n_is eight =
    let (gap, rest, behind, gap_length, gap_lacks) =
      version_behind p.behind p.pad n req.version en n_is eight in
    record {
      pad = p.pad;
      gap = gap;
      rest = rest;
      splits = p.splits ∙ rw (← method_is, ← uri_is, ← behind) refl;
      gap_length = gap_length;
      gap_lacks = gap_lacks;
      uri_lacks_space = rw uri_is p.uri_lacks_space;
      uri_lacks_return = rw uri_is p.uri_lacks_return;
      uri_ne_nil = rw uri_is (uri-ne-nil p.uri_part p.behind p.uri_starts);
    }
