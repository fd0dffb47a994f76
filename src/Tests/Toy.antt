-- ===== src/Tests/Toy.antt =====
-- A platform for the examples: memory that only grows, files and sockets as lists of bytes. It
-- keeps the promises that the theorems assume.
use cn_cw.Common.{
  ℕ, zero, suc, [], ◌∷◌, ◌∙◌, ◌+◌, ◌-◌, ◌*◌, ◌/◌, ◌^◌, ◌≤◌, ◌<◌, ◌≡◌, refl, sym, ap, inl, Option,
  none, some, ◌++◌, arith, ltb, ◌==◌, if◌then◌else◌, Bytes, codes, length, length-take, take, drop,
  take-append-drop, take_of_length_le,
}
use cn_cw.Descriptors.{one}
use cn_cw.Handler.Streams.{Streams, Progress}
use cn_cw.Log.Bounds.{LogsFit}
use cn_cw.Platform.{Platform, Allocates, got, other, Tm}

pub record ToyOs : Type 0 where
  pub brk : ℕ
  pub files : ℕ → Bytes
  pub wire : ℕ → Bytes
  -- How often each descriptor is open, the next process id, and how many children have an id.
  pub open_fds : ℕ → ℕ
  pub next_pid : ℕ
  pub children : ℕ → ℕ

abbrev pub toy_os : ToyOs
toy_os = record {
  brk = 4096;
  files = λ _. [];
  wire = λ _. [];
  open_fds = λ _. 0;
  next_pid = 9;
  children = λ _. 0;
}

-- One more of `k`, and one less.
abbrev pub more : (ℕ → ℕ) → ℕ → ℕ → ℕ
more f k j = f j + one k j

abbrev pub less : (ℕ → ℕ) → ℕ → ℕ → ℕ
less f k j = f j - one k j

abbrev pub toy_calloc : ℕ → ToyOs → Option ℕ × ToyOs
toy_calloc n os =
    let p = (os.brk + 15) / 16 * 16 in
    if ltb (p + n) (2 ^ 63) then (some p, record os { brk = p + n }) else (none, os)

abbrev pub put_at : (ℕ → Bytes) → ℕ → Bytes → ℕ → Bytes
put_at f k v j = if j == k then v else f j

abbrev pub toy_tm : Tm
toy_tm = record {
  tm_wday = 4;
  tm_mday = 1;
  tm_mon = 0;
  tm_year = 70;
  tm_hour = 0;
  tm_min = 0;
  tm_sec = 0;
}

abbrev pub toy : Platform
toy = record {
  Os = ToyOs;
  calloc = toy_calloc;
  free = λ p os. os;
  read = λ fd n os.
      (got (take n (os.files fd)), record os { files = put_at os.files fd (drop n (os.files fd)) });
  write = λ fd bs os. (got (length bs), record os { wire = put_at os.wire fd (os.wire fd ++ bs) });
  get_flags = λ fd os. (got 0, os);
  o_nonblock = 4;
  set_flags = λ fd flags os. (got tt, os);
  stat = λ path os. (got 5, os);
  realpath = λ path os. (got (16, path), os);
  open_file = λ path os. (
    got 5,
    record os { open_fds = more os.open_fds 5; files = put_at os.files 5 (codes "hello") },
  );
  close = λ fd os. record os { open_fds = less os.open_fds fd };
  gmtime = λ os. (toy_tm, os);
  localtime = λ os. (toy_tm, os);
  getpid = λ os. (7, os);
  errno = λ os. other;
  strerror = λ e. codes "error";
}

pub calloc_some :
    (n : ℕ) (os : ToyOs) {q : ℕ} {os' : ToyOs}
    → toy_calloc n os ≡ (some q, os')
    → (q ≡ (os.brk + 15) / 16 * 16) × (os'.brk ≡ q + n) × (q + n < 2 ^ 63)
calloc_some n os e = (ground arith, ground arith, ground arith)

pub calloc_brk :
    (n : ℕ) (os : ToyOs) {r : Option ℕ} {os' : ToyOs}
    → toy_calloc n os ≡ (r, os')
    → os.brk ≤ os'.brk
calloc_brk n os e = ground arith

unfoldable pub toy_allocates : Allocates toy
toy_allocates = record {
  Held = λ os a m. a + m ≤ os.brk;
  calloc_fresh = λ n os e h. inl (omega (arith, h, (calloc_some n os e).0));
  calloc_held = λ n os e. omega (arith, (calloc_some n os e).1);
  calloc_keeps = λ n os e h. omega (arith, h, calloc_brk n os e);
  calloc_aligned = λ n os e. omega (arith, (calloc_some n os e).0);
  calloc_in_space = λ n os e. omega (arith, (calloc_some n os e).2);
}

pub toy_fits : LogsFit toy
toy_fits = record {
  times = λ os. omega arith;
  pids = λ os. omega arith;
  messages = λ e. omega arith;
}

pub read_parts :
    (fd n : ℕ) (os : ToyOs) {bs : Bytes} {os' : ToyOs}
    → toy.read fd n os ≡ (got bs, os')
    → (bs ≡ take n (os.files fd)) × (os'.files fd ≡ drop n (os.files fd))
read_parts fd n os e = (ground arith, ground arith)

pub write_parts :
    (s : ℕ) (bs : Bytes) (os : ToyOs) {n : ℕ} {os' : ToyOs}
    → toy.write s bs os ≡ (got n, os')
    → (n ≡ length bs) × (os'.wire s ≡ os.wire s ++ bs)
write_parts s bs os e = (ground arith, ground arith)

pub nil_of_take : (n : ℕ) (s : Bytes) → take n s ≡ [] → 0 < n → s ≡ []
nil_of_take n [] e h = refl
nil_of_take zero (x ∷ xs) e h = absurd (omega arith)
nil_of_take (suc n) (x ∷ xs) e h = cc

unfoldable pub toy_streams : Streams toy
toy_streams = record {
  unread = λ os. os.files;
  sent = λ os. os.wire;
  read_got = λ fd n os e.
      let (b, r) = read_parts fd n os e in
      (
        sym (take-append-drop n (os.files fd)) ∙ rw (b, r) refl,
        omega (arith, ap length b, length-take n (os.files fd)),
      );
  read_end = λ fd n os e h. nil_of_take n (os.files fd) (sym (read_parts fd n os e).0) h;
  read_failed = λ fd n os e. ground arith;
  read_sent = λ fd n os s. refl;
  write_got = λ s bs os e.
      let (n, w) = write_parts s bs os e in
      (w ∙ ap (◌++◌ (os.wire s)) (sym (take_of_length_le _ bs (omega arith))), omega arith);
  write_failed = λ s bs os e. ground arith;
  write_other = λ s bs os t ne. ground arith;
  write_unread = λ s bs os f ne. refl;
  localtime_same = λ os fd. (refl, refl);
  getpid_same = λ os fd. (refl, refl);
}

pub toy_progress : Progress toy
unfolding Progress
toy_progress s bs os n os' e h = omega (arith, (write_parts s bs os e).0)
