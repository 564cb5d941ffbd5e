-- ===== src/Tests/Http.antt =====
-- ad_system/server3/ on small requests.
use learning_cpp.Prelude.{
  ℕ, ◌≡◌, refl, true, false, Option, none, some, List, [], ◌∷◌, Bytes, codes, equal,
}
use learning_cpp.Http.Chars.{is_token, is_ctl, is_digit}
use learning_cpp.Http.Parser.{
  State, accepted, rejected, consume_in, parse, initial, next_digit, on_back, go_back,
}
use learning_cpp.Http.Parser.Message.{Message, print, request_of, IsMessage}
use learning_cpp.Http.Parser.RoundTrip.{parse-print}
use learning_cpp.Http.Parser.Sound.{Sound, parse-initial-Sound}
use learning_cpp.Http.Uri.{hex_digit, hex_digits, after_sign, read_hex, url_decode}
use learning_cpp.Http.Reply.{
  Status, Reply, status_code, status_line, stock_content, stock_reply, to_buffers, gather,
  extension_to_type,
}
use learning_cpp.Http.Reply.Client.{read_headers, read_status, read_reply}
use learning_cpp.Http.Reply.Framing.{read_reply-to_buffers}
use learning_cpp.Http.Handler.{
  Handler, has_dot_dot, ends_in_slash, find_last, extension_of, c_str, work, serve_file,
  handle_path, handle_request,
}
use learning_cpp.Http.Handler.Safe.{AgreeBelow, with_files, handle_request_agree}
use learning_cpp.Http.Connection.{start, after_parse, handle_read, receive}
use learning_cpp.Http.Connection.Chunks.{concat, answered, receive-concat, receive_message}

program : Unit {0}
unfolding is_token is_ctl is_digit consume_in parse next_digit on_back go_back hex_digit hex_digits
    after_sign read_hex url_decode status_line stock_content stock_reply to_buffers
    extension_to_type has_dot_dot ends_in_slash find_last extension_of c_str work serve_file
    handle_path handle_request start after_parse handle_read receive equal
program = tt

abbrev message : Message
message = record {
  method = codes "GET";
  uri = codes "/a.html";
  major = codes "1";
  minor = codes "1";
  headers = record { name = codes "Host"; value = codes "x" } ∷ [];
}

message-IsMessage : IsMessage message
unfolding program
message-IsMessage = record {
  method_ne_nil = λ e. cc;
  method_token = (refl, (refl, (refl, tt)));
  uri_is = (
    (refl, refl),
    (
      (refl, refl),
      ((refl, refl), ((refl, refl), ((refl, refl), ((refl, refl), ((refl, refl), tt))))),
    ),
  );
  major_ne_nil = λ e. cc;
  major_digits = (refl, tt);
  minor_ne_nil = λ e. cc;
  minor_digits = (refl, tt);
  headers_are = (
    record {
      name_ne_nil = λ e. cc;
      name_token = (refl, (refl, (refl, (refl, tt))));
      value_text = (refl, tt);
    },
    tt,
  );
}

-- Two digits at most, which is enough here.
abbrev two_digits : ℕ → Bytes
two_digits n = b'4' ∷ b'2' ∷ []

abbrev small_site : Handler
small_site = record {
  doc_root = codes "/www";
  core_worker = none;
  files =
      λ name. elim (equal name (codes "/www/a.html")) [ true ↦ some (codes "hi") | false ↦ none ];
  to_text = two_digits;
}

parse_wire :
    parse initial (codes "GET /a.html HTTP/1.1\r\nHost: x\r\n\r\nrest")
    ≡ some (
      accepted,
      codes "rest",
      record { state = State.expecting_newline_3; req = request_of message },
    )
unfolding program
parse_wire = refl

refuses_control :
    parse initial (codes "G\tT")
    ≡ some (
      rejected,
      codes "T",
      record initial { state = State.method; req = record initial.req { method = codes "G" } },
    )
unfolding program
refuses_control = refl

-- "/%2e%2e/x" is refused; "/%1g" is read as a byte 1.
decoded_dots : url_decode (codes "/%2e%2E/x+y") ≡ some (codes "/../x y")
unfolding program
decoded_dots = refl

parse-print_example :
    parse initial (print message (codes "more"))
    ≡ some (
      accepted,
      codes "more",
      record { state = State.expecting_newline_3; req = request_of message },
    )
parse-print_example = parse-print message (codes "more") message-IsMessage

parse-initial-Sound_example : Sound (parse initial (codes "GET / HTTP/1.0\r\n\r\n"))
parse-initial-Sound_example = parse-initial-Sound (codes "GET / HTTP/1.0\r\n\r\n")

abbrev short : Bytes
short = codes "%41b"

short_decodes : url_decode short ≡ some (codes "Ab")
unfolding program
short_decodes = refl

one_digit : hex_digit b'1' ≡ some 1
unfolding program
one_digit = refl

no_digit : hex_digit b'g' ≡ none
unfolding program
no_digit = refl

abbrev page : Reply
page = record {
  status = Status.not_found;
  headers = record { name = codes "A"; value = codes "b" } ∷ [];
  content = codes "a\r\nb";
}

-- What is no reply: a line that ends without a newline, another version, and headers without an end.
no_reply :
    (read_reply (codes "HTTP/1.0 404 Not Found\rA: b\r\n\r\n") ≡ none)
    × (read_reply (codes "HTTP/9 404 Not Found\r\nA: b\r\n\r\n") ≡ none)
    × (read_reply (codes "HTTP/1.0 404 Not Found\r\nA: b\r\njunk\rX") ≡ none)
    × (read_reply (codes "HTTP/1.0 404 Not Found\r\nA: b\r\n\r\nX")
        ≡ some (404, record { name = codes "A"; value = codes "b" } ∷ [], codes "X"))
unfolding read_reply read_headers read_status equal
no_reply = (refl, refl, refl, refl)

read_reply-to_buffers_example :
    read_reply (gather (to_buffers page))
    ≡ some (status_code page.status, page.headers, page.content)
read_reply-to_buffers_example = read_reply-to_buffers page (
  record {
    name_ne_nil = refl;
    name_colon = (refl, tt);
    name_cr = (refl, tt);
    value_cr = (refl, tt);
  },
  tt,
)

abbrev empty_reply : Reply
empty_reply = record { status = Status.ok; headers = []; content = [] }

-- Another system, with one more file, outside the directory.
abbrev other_files : Bytes → Option Bytes
other_files name = elim (equal name (codes "/etc/passwd")) [
  | true ↦ some (codes "root")
  | false ↦ small_site.files name
]

other_files_agree : AgreeBelow small_site.doc_root small_site.files other_files
unfolding equal c_str
other_files_agree path safe = refl

other_files_differ :
    (small_site.files (codes "/etc/passwd") ≡ none)
    × (other_files (codes "/etc/passwd") ≡ some (codes "root"))
unfolding equal
other_files_differ = (refl, refl)

handle_request_agree_example :
    handle_request small_site (request_of message) empty_reply (codes "static")
    ≡ handle_request
        (with_files small_site other_files)
        (request_of message)
        empty_reply
        (codes "static")
handle_request_agree_example =
    handle_request_agree small_site other_files (request_of message) empty_reply (codes "static")
      other_files_agree

abbrev pieces : List Bytes
pieces = codes "GET /a.h" ∷ codes "tml HTTP/1.1\r" ∷ codes "\nHost: x\r\n\r\n" ∷ codes "more" ∷ []

receive-concat_example :
    receive small_site (start (codes "static")) pieces
    ≡ handle_read small_site (start (codes "static")) (some (concat pieces))
unfolding start
receive-concat_example = receive-concat small_site (start (codes "static")) pieces refl

receive_message_example :
    receive small_site (start (codes "static")) pieces
    ≡ answered (codes "static") (request_of message) (
        handle_request small_site
          (request_of message)
          (start (codes "static")).reply
          (codes "static"))
receive_message_example =
    receive_message small_site (codes "static") message (codes "more") pieces message-IsMessage refl
