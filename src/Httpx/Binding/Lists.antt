-- ===== src/Httpx/Binding/Lists.antt =====
-- A header that carries a list, as `headerValues` reads it.
use arnon.Prelude.{◌≡◌, refl, ap, ◌∙◌, false, List, [], ◌∷◌, ◌++◌, map, any, All, ◌==◌}
use mathlib.Core.List.{append_assoc}
use arnon.Prelude.Strings.{Text, codes, same, is_space, trim_space, split, join}
use arnon.Prelude.Strings.Laws.{
  split_one_any, split_first, split-cons, trim_space_blank, trim_space_word,
}
use arnon.Httpx.Binding.{nonempty_parts, header_values}

-- A value with no comma, no space and at least one character.
pub record IsWord (s : Text) : Type 0 where
  pub no_space : any is_space s ≡ false
  pub no_comma : any (λ c. c == b',') s ≡ false
  pub not_blank : same s [] ≡ false

-- A line with the values of a list.
abbrev pub line_of : List Text → Text
line_of words = join (codes ", ") words

abbrev pub all_of : List (List Text) → List Text
all_of [] = []
all_of (words ∷ lines) = words ++ all_of lines

blank_part :
    (part : Text) (parts : List Text)
    → nonempty_parts ((b' ' ∷ part) ∷ parts) ≡ nonempty_parts (part ∷ parts)
unfolding nonempty_parts is_space
blank_part part parts = rw (trim_space_blank b' ' part refl) refl

blank_line : (s : Text) → nonempty_parts (split b',' (b' ' ∷ s)) ≡ nonempty_parts (split b',' s)
blank_line s =
    let (part, parts, e, f) = split-cons b',' b' ' s refl in rw (e, f) (blank_part part parts)

word_part :
    (word : Text) (parts : List Text)
    → IsWord word
    → nonempty_parts (word ∷ parts) ≡ word ∷ nonempty_parts parts
unfolding nonempty_parts
word_part word parts w = rw (trim_space_word word w.no_space, w.not_blank) refl

nonempty_parts-line :
    (words : List Text) → All IsWord words → nonempty_parts (split b',' (line_of words)) ≡ words
unfolding join
nonempty_parts-line [] h = unfold nonempty_parts split trim_space same in refl
nonempty_parts-line (word ∷ []) (w, h) =
    rw (split_one_any b',' word w.no_comma) (word_part word [] w ∙ (unfold nonempty_parts in refl))
nonempty_parts-line (word ∷ next ∷ words) (w, h) =
    ap (λ l. nonempty_parts (split b',' l))
      (append_assoc word (codes ", ") (line_of (next ∷ words)))
    ∙ ap nonempty_parts (split_first b',' word (b' ' ∷ line_of (next ∷ words)) w.no_comma)
    ∙ (word_part word (split b',' (b' ' ∷ line_of (next ∷ words))) w
        ∙ ap (λ l. word ∷ l)
            (blank_line (line_of (next ∷ words)) ∙ nonempty_parts-line (next ∷ words) h))

-- The values of a list header are read back in their order, over however many lines they are spread, if
-- each is a word without commas and spaces.
pub header_values-lines :
    (lines : List (List Text))
    → All (λ words. All IsWord words) lines
    → header_values (map line_of lines) ≡ all_of lines
unfolding header_values
header_values-lines [] h = refl
header_values-lines (words ∷ lines) (w, h) =
    rw (nonempty_parts-line words w, header_values-lines lines h) refl
