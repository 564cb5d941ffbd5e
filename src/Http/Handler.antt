-- ===== src/Http/Handler.antt =====
-- `request_handler` of ad_system/server3/.
pub mod Paths
pub mod Safe
use learning_cpp.Prelude.{
  ℕ, suc, ◌+◌, Bool, true, false, not, ◌&&◌, ◌||◌, ltb, ◌==◌, Option, none, some, if◌then◌else◌,
  List, [], ◌∷◌, ◌++◌, Bytes, codes, equal, drop,
}
use learning_cpp.Http.Request.{Request}
use learning_cpp.Http.Uri.{url_decode}
use learning_cpp.Http.Reply.{Status, Reply, stock_reply, two_headers, extension_to_type}

abbrev starts_with_dot : Bytes → Bool
starts_with_dot [] = false
starts_with_dot (c ∷ cs) = c == b'.'

-- `request_path.find("..") != std::string::npos`.
unfoldable pub has_dot_dot : Bytes → Bool
has_dot_dot [] = false
has_dot_dot (c ∷ cs) = (c == b'.' && starts_with_dot cs) || has_dot_dot cs

-- `request_path.empty() || request_path[0] != '/'`.
abbrev pub not_absolute : Bytes → Bool
not_absolute [] = true
not_absolute (c ∷ cs) = not (c == b'/')

-- `request_path[request_path.size() - 1] == '/'`.
unfoldable pub ends_in_slash : Bytes → Bool
ends_in_slash [] = false
ends_in_slash (c ∷ []) = c == b'/'
ends_in_slash (c ∷ d ∷ cs) = ends_in_slash (d ∷ cs)

-- `find_last_of`, from position `i` on; `none` is `npos`.
unfoldable pub find_last : ℕ → ℕ → Bytes → Option ℕ
find_last x i [] = none
find_last x i (c ∷ cs) = elim (find_last x (i + 1) cs) [
  | some j ↦ some j
  | none ↦ if c == x then some i else none
]

-- `last_dot_pos != npos && last_dot_pos > last_slash_pos`; nothing is greater than `npos`.
abbrev is_after : Option ℕ → Option ℕ → Bool
is_after (some dot) (some slash) = ltb slash dot
is_after _ _ = false

abbrev after_position : Option ℕ → Bytes → Bytes
after_position none path = path
after_position (some i) path = drop (suc i) path

unfoldable pub extension_of : Bytes → Bytes
unfolding find_last
extension_of path =
    let dot = find_last b'.' 0 path in
    if is_after dot (find_last b'/' 0 path) then after_position dot path else []

-- What `c_str()` means to the file system: the bytes before the first NUL.
unfoldable pub c_str : Bytes → Bytes
c_str [] = []
c_str (c ∷ cs) = let rest = c_str cs in if c == 0 then [] else c ∷ rest

-- What the handler is given: the directory, the worker of `CoreWorkInterface` or a null pointer, the
-- files, and `boost::lexical_cast<std::string>`.
pub record Handler : Type 0 where
  pub doc_root : Bytes
  pub core_worker : Option (Bytes → Bool × Bytes)
  pub files : Bytes → Option Bytes
  pub to_text : ℕ → Bytes

-- The reply's last lines: status, headers.
abbrev pub fill_out : Handler → Bytes → Bytes → Reply
fill_out h content extension = record {
  status = Status.ok;
  headers = two_headers h.to_text content (extension_to_type extension);
  content = content;
}

abbrev pub worked : Handler → Reply → Bytes → Bool × Bytes → Reply
worked h rep default_type (true, out) = fill_out h (rep.content ++ out) default_type
worked h rep default_type (false, out) = stock_reply h.to_text Status.not_found

-- The branch of the worker. `none` is a call through a null pointer.
unfoldable pub work : Handler → Reply → Bytes → Bytes → Option Reply
work h rep default_type path = elim h.core_worker [
  | none ↦ none
  | some worker ↦ some (worked h rep default_type (worker path))
]

-- The branch of the static files.
unfoldable pub serve_file : Handler → Reply → Bytes → Reply
serve_file h rep path = elim (h.files (c_str (h.doc_root ++ path))) [
  | none ↦ stock_reply h.to_text Status.not_found
  | some content ↦ fill_out h (rep.content ++ content) (extension_of path)
]

abbrev pub with_index : Bytes → Bytes
with_index path = if ends_in_slash path then path ++ codes "index.html" else path

abbrev pub is_worked : Bytes → Bool
is_worked default_type = equal default_type (codes "xml") || equal default_type (codes "txt")

-- From the decoded path on.
unfoldable pub handle_path : Handler → Reply → Bytes → Bytes → Option Reply
handle_path h rep default_type path =
    if not_absolute path || has_dot_dot path
    then some (stock_reply h.to_text Status.bad_request)
    else if is_worked default_type
    then work h rep default_type (with_index path)
    else some (serve_file h rep (with_index path))

-- `handle_request(req, rep, defaultType)`: the new `rep`.
unfoldable pub handle_request : Handler → Request → Reply → Bytes → Option Reply
handle_request h req rep default_type = elim (url_decode req.uri) [
  | none ↦ some (stock_reply h.to_text Status.bad_request)
  | some path ↦ handle_path h rep default_type path
]
