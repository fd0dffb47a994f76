-- ===== src/Handler/Asked.antt =====
-- What the URI of a request asks for, and the status for a call that fails, as src/handler.c is to
-- read them, without its functions.
use cn_cw.Common.{
  ◌≡◌, ◌≢◌, refl, ◌⊎◌, inl, inr, true, false, [], ◌++◌, Bytes, bytes_eq, bytes_eq→eq, bytes_eq_self,
  codes, Bool-cases,
}
use cn_cw.Handler.Paths.{in_static_dir-Prefix}
use cn_cw.Handler.Serve.{errno_status, requested_name, in_static_dir}
use cn_cw.Http.Tables.{HttpStatusCode, forbidden, not_found, internal_server_error}
use cn_cw.Platform.{Errno, eacces, enotdir, enoent, eagain, ewouldblock, eintr, other}

-- Forbidden without permission, not found without a file or a directory, and else the server's own
-- error.
pub data StatusOf : Errno → HttpStatusCode → Type 0 where
  no_permission : StatusOf eacces forbidden
  no_directory : StatusOf enotdir not_found
  no_entry : StatusOf enoent not_found
  any_other :
      (err : Errno)
      → err ≢ eacces
      → err ≢ enotdir
      → err ≢ enoent
      → StatusOf err internal_server_error

pub errno_status-StatusOf : (err : Errno) → StatusOf err (errno_status err)
unfolding errno_status
errno_status-StatusOf eacces = no_permission
errno_status-StatusOf enotdir = no_directory
errno_status-StatusOf enoent = no_entry
errno_status-StatusOf eagain = any_other eagain (λ e. cc) (λ e. cc) (λ e. cc)
errno_status-StatusOf ewouldblock = any_other ewouldblock (λ e. cc) (λ e. cc) (λ e. cc)
errno_status-StatusOf eintr = any_other eintr (λ e. cc) (λ e. cc) (λ e. cc)
errno_status-StatusOf other = any_other other (λ e. cc) (λ e. cc) (λ e. cc)

-- The file that a URI names in the static directory: the index for the root and for nothing.
abbrev pub Names : Bytes → Bytes → Type 0
Names uri name =
    (((uri ≡ codes "/") ⊎ (uri ≡ [])) × (name ≡ codes "index.html"))
    ⊎ ((uri ≢ codes "/") × (uri ≢ []) × (name ≡ uri))

differs : (s t : Bytes) → bytes_eq s t ≡ false → s ≢ t
differs s t h e = let same : bytes_eq s t ≡ true = rw e (bytes_eq_self t) in cc

pub requested_name-Names : (uri : Bytes) → Names uri (requested_name uri)
unfolding requested_name
requested_name-Names uri = elim (Bool-cases (bytes_eq uri (codes "/"))) [
  | inl root ↦ inl (inl (bytes_eq→eq uri (codes "/") root), rw root refl)
  | inr e ↦ elim (Bool-cases (bytes_eq uri [])) [
    | inl nothing ↦ inl (inr (bytes_eq→eq uri [] nothing), rw (e, nothing) refl)
    | inr e' ↦ inr (differs uri (codes "/") e, differs uri [] e', rw (e, e') refl)
  ]
]

-- The path begins with the name of the directory.
abbrev pub Begins : Bytes → Bytes → Type 0
Begins static_dir full_path = (rest : Bytes) × (full_path ≡ static_dir ++ rest)

pub not_Begins :
    (static_dir full_path : Bytes)
    → in_static_dir static_dir full_path ≡ false
    → ¬ (Begins static_dir full_path)
not_Begins static_dir full_path out begins =
    let inside = (in_static_dir-Prefix static_dir full_path).1 begins in cc
