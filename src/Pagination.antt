-- ===== src/Pagination.antt =====
-- pagination.py. The JSON and base64 steps of a token are Python's library, in a record of two
-- functions: `dump` is the whole text built by `encode_page_token`, and `load` undoes base64 and
-- JSON and looks "after" up, where `none` is any of the errors caught.
pub mod Pages
use a2a_events_python.Common.{
  ℕ, suc, ◌+◌, Bool, true, Option, none, some, List, [], ◌∷◌, if◌then◌else◌, ltb, length, take,
  drop, last?, Text, text_eq,
}
use a2a_events_python.Json.{Json, str}
use a2a_events_python.Errors.{Result, ok, raise, protocol, invalid_cursor, ◌>>=◌}

pub record TokenCodec : Type 0 where
  pub dump : Text → Text
  pub load : Text → Option Json

unfoldable pub encode_page_token : TokenCodec → Text → Text
encode_page_token codec after = codec.dump after

abbrev after_of : Option Json → Result (Option Text)
after_of (some (str after)) = ok (some after)
after_of _ = raise (protocol invalid_cursor)

unfoldable pub decode_page_token : TokenCodec → Option Text → Result (Option Text)
decode_page_token codec none = ok none
decode_page_token codec (some []) = ok none
decode_page_token codec (some (c ∷ cs)) = after_of (codec.load (c ∷ cs))

module _ {A : Type 0} (key : A → Text) where
  -- ids.index(after) + 1 if after in ids else len(items)
  unfoldable pub start_after : Text → List A → ℕ
  start_after after [] = 0
  start_after after (x ∷ xs) =
      let rest = start_after after xs in if text_eq (key x) after then 1 else suc rest

  abbrev start_of : Option Text → List A → ℕ
  start_of none items = 0
  start_of (some after) items = start_after after items

  abbrev pub token_of : TokenCodec → Bool → Option A → Option Text
  token_of codec true (some x) = some (encode_page_token codec (key x))
  token_of codec _ _ = none

  unfoldable pub paginate : TokenCodec → List A → Option Text → ℕ → Result (List A × Option Text)
  unfolding start_after
  paginate codec items page_token page_size = do
    after ← decode_page_token codec page_token
    let start = start_of after items
    let page = take page_size (drop start items)
    ok (page, token_of codec (ltb (start + page_size) (length items)) (last? page))
