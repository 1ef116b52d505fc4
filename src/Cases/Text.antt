-- ===== src/Cases/Text.antt =====
-- `safeText` of src/lib/collaboration-access.ts: a text is the list of its UTF-16 code units.
use rent_a_4_wheel.Prelude.{
  ℕ, ◌+◌, Bool, false, not, ◌&&◌, ◌||◌, Option, none, some, List, [], ◌∷◌, any, includes, length,
  if◌then◌else◌, leb, nat_eq, ◌==◌,
}

-- What `trim` and `\s` take for a space.
unfoldable pub is_space : ℕ → Bool
is_space c =
    (leb 9 c && leb c 13)
    || (leb 8192 c && leb c 8202)
    || includes (32 ∷ 160 ∷ 5760 ∷ 8232 ∷ 8233 ∷ 8239 ∷ 8287 ∷ 12288 ∷ 65279 ∷ []) c

unfoldable pub trim_start : List ℕ → List ℕ
unfolding is_space
trim_start [] = []
trim_start (c ∷ cs) = let rest = trim_start cs in if is_space c then rest else c ∷ cs

-- A character goes before a text that is trimmed at its end.
pub push_trimmed : ℕ → List ℕ → List ℕ
unfolding is_space
push_trimmed c [] = if is_space c then [] else c ∷ []
push_trimmed c (d ∷ ds) = c ∷ d ∷ ds

unfoldable pub trim_end : List ℕ → List ℕ
unfolding push_trimmed
trim_end [] = []
trim_end (c ∷ cs) = push_trimmed c (trim_end cs)

unfoldable pub lower : ℕ → ℕ
lower c = if leb b'A' c && leb c b'Z' then c + 32 else c

-- The text after a word, in whatever case.
after_word : List ℕ → List ℕ → Option (List ℕ)
unfolding lower
after_word [] cs = some cs
after_word (w ∷ ws) [] = none
after_word (w ∷ ws) (c ∷ cs) = let rest = after_word ws cs in if lower c == w then rest else none

starts_with_colon : List ℕ → Bool
starts_with_colon [] = false
starts_with_colon (c ∷ cs) = c == b':'

opens_scheme : Option (List ℕ) → Bool
unfolding starts_with_colon trim_start
opens_scheme none = false
opens_scheme (some cs) = starts_with_colon (trim_start cs)

-- `javascript`, `data` and `vbscript`.
schemes : List (List ℕ)
schemes =
    (b'j' ∷ b'a' ∷ b'v' ∷ b'a' ∷ b's' ∷ b'c' ∷ b'r' ∷ b'i' ∷ b'p' ∷ b't' ∷ [])
    ∷ (b'd' ∷ b'a' ∷ b't' ∷ b'a' ∷ [])
    ∷ (b'v' ∷ b'b' ∷ b's' ∷ b'c' ∷ b'r' ∷ b'i' ∷ b'p' ∷ b't' ∷ [])
    ∷ []

unfoldable pub has_scheme : List ℕ → Bool
unfolding after_word opens_scheme schemes
has_scheme [] = false
has_scheme (c ∷ cs) = any (λ w. opens_scheme (after_word w (c ∷ cs))) schemes || has_scheme cs

unfoldable pub is_markup : ℕ → Bool
is_markup c = c == b'<' || c == b'>' || leb c 8

-- The trimmed text, if it is plain.
unfoldable pub safe_text : List ℕ → Option (List ℕ)
unfolding trim_start trim_end has_scheme is_markup
safe_text value =
    let text = trim_end (trim_start value) in
    if leb 1 (length text)
      && leb (length text) 5000
      && not (any is_markup text)
      && not (has_scheme text)
    then some text
    else none
