-- ===== src/Pagination/Pages.antt =====
-- The page that a token asks for.
use a2a_events_python.Common.{
  ℕ, ◌+◌, ◌≡◌, ◌≢◌, refl, arith, Bool, false, some, List, [], ◌∷◌, ◌++◌, ltb, length, length-append,
  take, drop, last?, Text, text_eq, text_eq_refl, any_by, Bool-cases, inl, inr,
}
use a2a_events_python.Json.{str}
use a2a_events_python.Errors.{ok}
use a2a_events_python.Pagination.{
  TokenCodec, encode_page_token, decode_page_token, start_after, token_of, paginate,
}

module _ {A : Type 0} (key : A → Text) where
  -- the key is that of an item of the list
  abbrev pub has_key : Text → List A → Bool
  has_key k items = any_by (λ x. text_eq (key x) k) items

  drop-start_after :
      (x : A) (pre post : List A)
      → has_key (key x) pre ≡ false
      → (drop (start_after key (key x) (pre ++ x ∷ post)) (pre ++ x ∷ post) ≡ post)
        × (start_after key (key x) (pre ++ x ∷ post) ≡ length pre + 1)
  unfolding start_after
  drop-start_after x [] post h = rw (text_eq_refl (key x)) (refl, omega arith)
  drop-start_after x (y ∷ pre) post h = elim (Bool-cases (text_eq (key y) (key x))) [
    | inl same ↦ absurd (let h' = rw same at h in cc)
    | inr other ↦
        let (rest, start) = drop-start_after x pre post (rw other at h) in
        rw other (rest, omega (arith, start))
  ]

  more_after :
      (x : A) (pre post : List A) (n : ℕ)
      → ltb ((length pre + 1) + n) (length (pre ++ x ∷ post)) ≡ ltb n (length post)
  more_after x pre post n = ground (arith, length-append pre (x ∷ post))

decoded :
    (codec : TokenCodec) (k token : Text)
    → token ≢ []
    → codec.load token ≡ some (str k)
    → decode_page_token codec (some token) ≡ ok (some k)
unfolding decode_page_token
decoded codec k [] filled loads = absurd (filled refl)
decoded codec k (c ∷ cs) filled loads = rw (loads, decode_page_token) refl

-- Where the codec's token is not empty and loads as what was dumped, and no item before `x` has the
-- key of `x`: the page that the token of `x` asks for holds the first items after `x`, as many as
-- the page size, and names the last of them in the next token exactly if more items follow.
pub paginate-encode_page_token :
    {A : Type 0} (key : A → Text) (codec : TokenCodec) (x : A) (pre post : List A) (page_size : ℕ)
    → codec.dump (key x) ≢ []
    → codec.load (codec.dump (key x)) ≡ some (str (key x))
    → has_key key (key x) pre ≡ false
    → paginate key codec (pre ++ x ∷ post) (some (encode_page_token codec (key x))) page_size
      ≡ ok (
        take page_size post,
        token_of key codec (ltb page_size (length post)) (last? (take page_size post)),
      )
unfolding paginate encode_page_token
paginate-encode_page_token key codec x pre post page_size filled loads fresh =
    let (rest, start) = drop-start_after key x pre post fresh in
    rw (decoded codec (key x) (codec.dump (key x)) filled loads, paginate)
      (rw rest (rw start (rw (more_after key x pre post page_size) refl)))
