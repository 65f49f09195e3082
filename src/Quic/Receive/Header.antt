-- ===== src/Quic/Receive/Header.antt =====
-- server/quic/server.py: the first line of an upload stream, which names the file and the offset.
use mini_im.Prelude.{
  ℕ, ◌+◌, ◌-◌, ◌*◌, String, Bool, ◌&&◌, not, Option, none, some, List, [], ◌∷◌, if◌then◌else◌, ◌==◌,
  ltb, leb, length, all,
}
use mini_im.Protocol.{Bytes}
use mini_im.Text.{encode}
use mini_im.Storage.ControlWrite.{same_bytes}
use mini_im.Quic.Upload.{bind}
use mini_im.Quic.Receive.{FileStreamState, Receiver, put_state, rejecting}

abbrev pub file_stream_header_max : ℕ
file_stream_header_max = 512

-- `buffer.find(b"\n")`: what stands before the first newline, and what after it.
unfoldable pub split_line : Bytes → Option (Bytes × Bytes)
split_line [] = none
split_line (b ∷ buffer) =
    if b == 10
    then some ([], buffer)
    else elim (split_line buffer) [ none ↦ none | some (line, rest) ↦ some (b ∷ line, rest) ]

-- `header.split(" ")`
unfoldable pub split_spaces : Bytes → List Bytes
split_spaces [] = [] ∷ []
split_spaces (b ∷ line) =
    let rest = split_spaces line in
    if b == 32
    then [] ∷ rest
    else elim rest [ [] ↦ (b ∷ []) ∷ [] | part ∷ parts ↦ (b ∷ part) ∷ parts ]

-- `offset.isascii() and offset.isdecimal()`
unfoldable pub is_decimal : Bytes → Bool
unfolding all
is_decimal offset = not (length offset == 0) && all (λ b. leb 48 b && leb b 57) offset

-- `int(offset)`
unfoldable pub number_from : ℕ → Bytes → ℕ
number_from n [] = n
number_from n (b ∷ offset) = number_from (10 * n + (b - 48)) offset

-- `decode` is `bytes.decode("utf-8")`, without a result where it raises an error.
unfoldable pub parse_header : (Bytes → Option String) → Bytes → Option (String × ℕ)
unfolding split_spaces is_decimal number_from same_bytes encode
parse_header decode header = elim (split_spaces header) [
  | [] ↦ none
  | prefix ∷ rest ↦ elim rest [
    | [] ↦ none
    | name ∷ rest' ↦ elim rest' [
      | [] ↦ none
      | offset ∷ more ↦
          if length more == 0 && same_bytes prefix (encode "MINIIMFILE2") && is_decimal offset
          then elim (decode name) [
            | none ↦ none
            | some file_id ↦ some (file_id, number_from 0 offset)
          ]
          else none
    ]
  ]
]

-- The lease of a stream that is bound: `uploads.bind` for the header.
unfoldable pub bind_header :
    (Bytes → Option String)
    → ℕ
    → ℕ
    → Bytes
    → FileStreamState
    → Receiver
    → Option FileStreamState × Receiver
unfolding parse_header bind
bind_header decode now stream_id header state r = elim (parse_header decode header) [
  | none ↦ (none, r)
  | some (file_id, offset) ↦
      let (lease, uploads) = bind now r.connection file_id stream_id offset r.uploads in
      let r' = record r { uploads = uploads } in
      elim lease [
        | none ↦ (none, r')
        | some a ↦ (some (record state { file_id = file_id; lease = some a }), r')
      ]
]

-- `_bind_upload_stream`, with the state if it returns `True`.
unfoldable pub bind_upload_stream :
    (Bytes → Option String)
    → ℕ
    → ℕ
    → FileStreamState
    → Bool
    → Receiver
    → Option (Option FileStreamState × Receiver)
unfolding split_line bind_header put_state rejecting
bind_upload_stream decode now stream_id state end_stream r = elim (split_line state.buffer) [
  | none ↦
      if leb (length state.buffer) file_stream_header_max && not end_stream
      then some (none, r)
      else rejecting none stream_id r
  | some (header, rest) ↦
      if ltb file_stream_header_max (length header)
      then rejecting none stream_id r
      else let (bound, r') =
          bind_header decode now stream_id header (record state { buffer = rest }) r in
        elim bound [
          | none ↦ rejecting none stream_id r'
          | some state' ↦ some (some state', put_state stream_id state' r')
        ]
]
