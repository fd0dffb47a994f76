-- ===== src/Handler/Response/Built.antt =====
-- The headers of src/handler.c as they are built: what each step gives, for any property of the machine
-- that the calls in between keep.
use cn_cw.Common.{
  ◌≤◌, ◌<◌, ◌≡◌, refl, ap, ◌∙◌, sym, subst, Option, none, some, [], ◌∷◌, ◌++◌, arith, Bytes, codes,
  length, take, take_of_length_le,
}
use cn_cw.Conn.{Conn, HttpHeader}
use cn_cw.Handler.{State}
use cn_cw.Handler.Response.{make_header, date_value, make_date_header, http_response_date}
use cn_cw.Handler.Response.Date.{http_response_date-short}
use cn_cw.Log.Bounds.{LogsFit, InRange}
use cn_cw.Memory.{server_memfmt}
use cn_cw.Memory.Neutral.{Neutral, Stable}
use cn_cw.Memory.Proper.{
  Proper, Proper-and_then, Proper-mono, Ensures-Proper_exits, Proper-both, server_alloc-Proper,
  server_strdup-Proper,
}
use cn_cw.Outcome.{Cmd, and_then}
use cn_cw.PgList.{PgList, Appends}
use cn_cw.Platform.{Platform}

-- `I` is kept by the calls of the log and of the allocator, by `gmtime`, and by `lappend`.
pub record Building (p : Platform) (headers : PgList (p.Os) HttpHeader Conn) (I : State p → Type 0)
    : Type 0 where
  pub neutral : Neutral p I
  pub after_gmtime : (m : State p) → I m → I (record m { os = (p.gmtime m.os).1 })
  pub after_lappend :
      (l : headers.Cells) (h : HttpHeader) (m : State p) → I m → Stable I (headers.lappend l h m)

-- The times of the system are in the documented ranges.
abbrev pub Dates : Platform → Type 0
Dates p = (os : p.Os) → InRange (p.gmtime os).0 × ((p.gmtime os).0.tm_wday < 7)

-- The text is the date of some time of the system.
abbrev pub IsDate : Platform → Bytes → Type 0
IsDate p date = (os : p.Os) × (http_response_date (p.gmtime os).0 ≡ some date)

pub IsDate-short : (p : Platform) → Dates p → (date : Bytes) → IsDate p date → length date ≤ 60
IsDate-short p dates date (os, e) =
    let (text, is_text, short) =
      http_response_date-short (p.gmtime os).0 (dates os).0 (dates os).1 in
    let same : ◌≡◌ {A = Option Bytes} (some text) (some date) = sym is_text ∙ e in
    let same_text : text ≡ date = cc in subst (λ t. length t ≤ 60) same_text short

module _ (platform : Platform) (fit : LogsFit platform) (dates : Dates platform)
    (headers : PgList (platform.Os) HttpHeader Conn) (appends : Appends headers)
    (J : State platform → Type 0) (I : State platform → Type 0)
    (building : Building platform headers I) where
  open platform use {Os, gmtime}
  open headers use {Cells, elements, lappend}
  open building use {neutral, after_gmtime, after_lappend}

  pub make_header-Built :
      (name value : Bytes) (m : State platform)
      → I m
      → Proper
          (λ h m'. (h ≡ record { name = name; value = value }) × I m')
          J
          (make_header platform name value m)
  unfolding make_header
  make_header-Built name value m i =
      Proper-and_then (λ _. I) (λ h m'. (h ≡ record { name = name; value = value }) × I m') J _ _
        (server_alloc-Proper platform fit J I neutral 16 m i) (λ a s i'. (refl, i'))

  abbrev pub Dated : HttpHeader → State platform → Type 0
  Dated h m =
      (date : Bytes) × (h ≡ record { name = codes "Date"; value = date })
      × IsDate platform date
      × I m

  date_value-Built :
      (text : Option Bytes) (date : Bytes) (m : State platform)
      → text ≡ some date
      → IsDate platform date
      → I m
      → Proper Dated J (date_value platform text m)
  unfolding date_value
  date_value-Built none date m e d i = cc
  date_value-Built (some text) date m e d i =
      let same : text ≡ date = cc in
      let whole : take 4095 date ≡ date =
        take_of_length_le 4095 date (omega (arith, IsDate-short platform dates date d)) in
      Proper-and_then (λ r m'. (r ≡ take 4095 text) × I m') Dated J _ _
        (server_strdup-Proper platform fit J I neutral (take 4095 text) m i)
        (λ value m' (is_value, i').
          Proper-mono (λ h m2. (h ≡ record { name = codes "Date"; value = value }) × I m2) Dated J _
            (make_header-Built (codes "Date") value m' i')
            (λ h m2 (is_h, i2). (
              date,
              is_h
                  ∙ ap (λ v. record { name = codes "Date"; value = v })
                      (is_value ∙ ap (take 4095) same ∙ whole),
              d,
              i2,
            )))

  pub make_date_header-Built :
      (m : State platform) → I m → Proper Dated J (make_date_header platform m)
  unfolding make_date_header
  make_date_header-Built m i =
      let (text, is_text, short) =
        http_response_date-short (gmtime m.os).0 (dates m.os).0 (dates m.os).1 in
      date_value-Built (http_response_date (gmtime m.os).0) text (record m { os = (gmtime m.os).1 })
        is_text (m.os, is_text) (after_gmtime m i)

  pub lappend-Built :
      (l : Cells) (h : HttpHeader) (m : State platform)
      → I m
      → Proper (λ l' m'. (elements l' ≡ elements l ++ h ∷ []) × I m') J (lappend l h m)
  lappend-Built l h m i =
      Proper-both (λ l' _. elements l' ≡ elements l ++ h ∷ []) I J _
        (Ensures-Proper_exits
          (λ l' m'. (elements l' ≡ elements l ++ h ∷ []) × (m'.client ≡ m.client))
          (λ l' _. elements l' ≡ elements l ++ h ∷ []) J (λ _. Unit {0}) (lappend l h m)
          (λ l' m' e. e.0) (appends.exits_in_memory l h m) (appends.elements-lappend l h m))
        (after_lappend l h m i)

  -- A header, put behind the list.
  pub with_header-Built :
      {B : Type 0} (Q : B → State platform → Type 0) (name value : Bytes) (l : Cells)
      (m : State platform) (k : Cells → Cmd (State platform) B)
      → I m
      → ((l' : Cells) (m' : State platform)
          → elements l' ≡ elements l ++ record { name = name; value = value } ∷ []
          → I m'
          → Proper Q J (k l' m'))
      → Proper Q J
          (and_then (make_header platform name value m) (λ h m1. and_then (lappend l h m1) k))
  with_header-Built Q name value l m k i next =
      Proper-and_then (λ h m'. (h ≡ record { name = name; value = value }) × I m') Q J _ _
        (make_header-Built name value m i)
        (λ h m1 (is_h, i1).
          Proper-and_then (λ l' m'. (elements l' ≡ elements l ++ h ∷ []) × I m') Q J _ _
            (lappend-Built l h m1 i1)
            (λ l' m2 (e, i2). next l' m2 (e ∙ ap (λ x. elements l ++ x ∷ []) is_h) i2))

  -- A text of less than the buffer's size is copied whole.
  pub server_memfmt-Built :
      (text : Bytes) (m : State platform)
      → length text ≤ 4095
      → I m
      → Proper (λ r m'. (r ≡ text) × I m') J (server_memfmt platform text m)
  unfolding server_memfmt
  server_memfmt-Built text m short i =
      subst (λ t. Proper (λ r m'. (r ≡ t) × I m') J (server_memfmt platform text m))
        (take_of_length_le 4095 text short)
        (server_strdup-Proper platform fit J I neutral (take 4095 text) m i)
