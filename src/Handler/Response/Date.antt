-- ===== src/Handler/Response/Date.antt =====
-- The text of the Date header of src/handler.c, for a time in the documented ranges.
use cn_cw.Common.{
  ℕ, zero, suc, ◌<◌, ◌+◌, ◌≤◌, ◌≡◌, refl, some, List, [], ◌∷◌, All, arith, Bytes, length,
  length-join, get_elem?,
}
use cn_cw.Handler.Response.{days, months, date_text, http_response_date}
use cn_cw.Log.Bounds.{InRange, length-decimal, length-decimal2}
use cn_cw.Platform.{Tm}

get_elem?-All :
    (P : Bytes → Type 0) (xs : List Bytes) (n : ℕ)
    → All P xs
    → n < length xs
    → (x : Bytes) × (get_elem? xs n ≡ some x) × P x
get_elem?-All P [] n h lt = absurd (omega (arith, lt))
get_elem?-All P (x ∷ xs) zero h lt = (x, refl, h.0)
get_elem?-All P (x ∷ xs) (suc n) h lt = get_elem?-All P xs n h.1 (omega (arith, lt))

abbrev Short : Bytes → Type 0
Short s = length s ≤ 3

day_name : (n : ℕ) → n < 7 → (x : Bytes) × (get_elem? days n ≡ some x) × Short x
unfolding days
day_name n lt =
    let e : 3 ≤ 3 = omega arith in
    get_elem?-All Short days n (e, (e, (e, (e, (e, (e, (e, tt))))))) (omega (arith, lt))

month_name : (n : ℕ) → n < 12 → (x : Bytes) × (get_elem? months n ≡ some x) × Short x
unfolding months
month_name n lt =
    let e : 3 ≤ 3 = omega arith in
    get_elem?-All Short months n (e, (e, (e, (e, (e, (e, (e, (e, (e, (e, (e, (e, tt))))))))))))
      (omega (arith, lt))

length-date_text :
    (day month : Bytes) (tm : Tm)
    → Short day
    → Short month
    → InRange tm
    → length (date_text day month tm) ≤ 60
unfolding date_text
length-date_text day month tm d m r =
    let md = length-decimal 1 tm.tm_mday r.mday in
    let y = length-decimal 3 (tm.tm_year + 1900) (omega (arith, r.year)) in
    let h = length-decimal2 tm.tm_hour r.hour in
    let mi = length-decimal2 tm.tm_min r.min in
    let s = length-decimal2 tm.tm_sec r.sec in omega (arith, md, y, h, mi, s, d, m, length-join)

-- A time in range has a date, which is short.
pub http_response_date-short :
    (tm : Tm)
    → InRange tm
    → tm.tm_wday < 7
    → (text : Bytes) × (http_response_date tm ≡ some text) × (length text ≤ 60)
unfolding http_response_date
http_response_date-short tm r w =
    let (day, is_day, short_day) = day_name tm.tm_wday w in
    let (month, is_month, short_month) = month_name tm.tm_mon r.mon in
    (
      date_text day month tm,
      rw (is_day, is_month) refl,
      length-date_text day month tm short_day short_month r,
    )
