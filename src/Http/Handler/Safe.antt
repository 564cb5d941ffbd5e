-- ===== src/Http/Handler/Safe.antt =====
-- Which files the handler can reach, and the shape of what it replies.
use learning_cpp.Prelude.{ℕ, ◌≡◌, refl, arith, false, Option, none, some, ◌++◌, Bytes}
use learning_cpp.Http.Request.{Request}
use learning_cpp.Http.Uri.{url_decode}
use learning_cpp.Http.Reply.{Status, Reply, stock_reply, two_headers}
use learning_cpp.Http.Handler.{
  Handler, c_str, work, serve_file, not_absolute, has_dot_dot, with_index, handle_path,
  handle_request,
}
use learning_cpp.Http.Handler.Paths.{IsSafe, with_index-IsSafe}

-- Two file systems agree on the files that lie below the directory under a safe path.
abbrev pub AgreeBelow : Bytes → (Bytes → Option Bytes) → (Bytes → Option Bytes) → Type 0
AgreeBelow root f g =
    (path : Bytes) → IsSafe path → f (c_str (root ++ path)) ≡ g (c_str (root ++ path))

abbrev pub with_files : Handler → (Bytes → Option Bytes) → Handler
with_files h g = record h { files = g }

serve_file_agree :
    (h : Handler) (g : Bytes → Option Bytes) (rep : Reply) (path : Bytes)
    → h.files (c_str (h.doc_root ++ path)) ≡ g (c_str (h.doc_root ++ path))
    → serve_file h rep path ≡ serve_file (with_files h g) rep path
unfolding serve_file
serve_file_agree h g rep path e = rw (e, serve_file)

handle_path_agree :
    (h : Handler) (g : Bytes → Option Bytes) (rep : Reply) (default_type path : Bytes)
    → AgreeBelow h.doc_root h.files g
    → handle_path h rep default_type path ≡ handle_path (with_files h g) rep default_type path
unfolding handle_path work
handle_path_agree h g rep default_type path same = ground (
  arith,
  λ (a : not_absolute path ≡ false) (b : has_dot_dot path ≡ false).
      serve_file_agree h g rep (with_index path)
        (same (with_index path) (with_index-IsSafe path a b)),
)

-- Whatever a client asks for, the reply depends only on files below the directory under a path that
-- begins with a slash and holds no two dots in a row: two file systems that agree on those files give
-- the same reply.
pub handle_request_agree :
    (h : Handler) (g : Bytes → Option Bytes) (req : Request) (rep : Reply) (default_type : Bytes)
    → AgreeBelow h.doc_root h.files g
    → handle_request h req rep default_type ≡ handle_request (with_files h g) req rep default_type
unfolding handle_request
handle_request_agree h g req rep default_type same = go (url_decode req.uri)
  where
    go :
        (o : Option Bytes)
        → elim o [
          | none ↦ some (stock_reply h.to_text Status.bad_request)
          | some path ↦ handle_path h rep default_type path
        ]
          ≡ elim o [
            | none ↦ some (stock_reply h.to_text Status.bad_request)
            | some path ↦ handle_path (with_files h g) rep default_type path
          ]
    go none = refl
    go (some path) = handle_path_agree h g rep default_type path same

-- A reply of the program: its length is that of its content, in the text that `lexical_cast` makes.
pub record IsFramed (to_text : ℕ → Bytes) (r : Reply) : Type 0 where
  pub type : Bytes
  pub headers_are : r.headers ≡ two_headers to_text r.content type

-- What a handler may leave: a framed reply, or a fault if there is no worker.
abbrev pub Framed : Handler → Option Reply → Type 0
Framed h none = h.core_worker ≡ none
Framed h (some r) = IsFramed h.to_text r
