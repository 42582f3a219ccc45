-- ===== src/Dashboard/Escape.antt =====
-- monitor/dashboard.go: `escapeHtml` of the page's script, and where the page puts what it returns.
use redis_glass.Prelude.{
  ℕ, ◌≡◌, ◌≢◌, refl, sym, ap, ◌∙◌, arith, [], ◌∷◌, ◌++◌, append_assoc, All, Bytes, codes, ◌==◌,
  if◌then◌else◌, Bool-cases, inl, inr,
}

-- `s.replace(/c/g, t)`.
unfoldable pub replace_all : ℕ → Bytes → Bytes → Bytes
replace_all c t [] = []
replace_all c t (x ∷ s) = let rest = replace_all c t s in if x == c then t ++ rest else x ∷ rest

unfoldable pub escape_html : Bytes → Bytes
unfolding replace_all
escape_html s =
    replace_all b'>' (codes "&gt;")
      (replace_all b'<' (codes "&lt;") (replace_all b'&' (codes "&amp;") s))

-- A double quote.
abbrev pub quote : ℕ
quote = 34

-- The value of an attribute in double quotes, as a browser reads it: up to the next quote.
unfoldable pub attribute_value : Bytes → Bytes
attribute_value [] = []
attribute_value (c ∷ s) = let rest = attribute_value s in if c == quote then [] else c ∷ rest

-- The `title` attribute in a row of `renderHotkeys`, with what is behind it.
unfoldable pub title_of : Bytes → Bytes → Bytes
unfolding escape_html
title_of key rest = escape_html key ++ quote ∷ rest

replace_all-append :
    (c : ℕ) (t s s' : Bytes) → replace_all c t (s ++ s') ≡ replace_all c t s ++ replace_all c t s'
unfolding replace_all
replace_all-append c t [] s' = refl
replace_all-append c t (x ∷ s) s' = elim (Bool-cases (x == c)) [
  | inl e ↦ rw e (ap (λ l. t ++ l) (replace_all-append c t s s') ∙ sym (append_assoc t _ _))
  | inr e ↦ rw e (ap (λ l. x ∷ l) (replace_all-append c t s s'))
]

escape_html-append : (s s' : Bytes) → escape_html (s ++ s') ≡ escape_html s ++ escape_html s'
unfolding escape_html
escape_html-append s s' = rw (
  replace_all-append b'&' (codes "&amp;") s s',
  replace_all-append b'<' (codes "&lt;") (replace_all b'&' (codes "&amp;") s) _,
  replace_all-append b'>' (codes "&gt;")
      (replace_all b'<' (codes "&lt;") (replace_all b'&' (codes "&amp;") s)) _,
)

escape_html-quote : (s : Bytes) → escape_html (quote ∷ s) ≡ quote ∷ escape_html s
unfolding escape_html replace_all
escape_html-quote s = refl

-- No other character than these.
abbrev pub Lacks : ℕ → Bytes → Type 0
Lacks c = All (λ x. x ≢ c)

Lacks-append : (c : ℕ) (s s' : Bytes) → Lacks c s → Lacks c s' → Lacks c (s ++ s')
Lacks-append c [] s' h h' = h'
Lacks-append c (x ∷ s) s' (hx, h) h' = (hx, Lacks-append c s s' h h')

replace_all-Lacks : (c : ℕ) (t s : Bytes) → Lacks c t → Lacks c (replace_all c t s)
unfolding replace_all
replace_all-Lacks c t [] h = tt
replace_all-Lacks c t (x ∷ s) h = elim (Bool-cases (x == c)) [
  | inl e ↦ rw e (Lacks-append c t _ h (replace_all-Lacks c t s h))
  | inr e ↦ rw e (ground arith, replace_all-Lacks c t s h)
]

-- A replacement of another character brings none of these in.
replace_all-keeps_Lacks :
    (c d : ℕ) (t s : Bytes) → Lacks d t → Lacks d s → Lacks d (replace_all c t s)
unfolding replace_all
replace_all-keeps_Lacks c d t [] h k = tt
replace_all-keeps_Lacks c d t (x ∷ s) h (kx, k) = elim (Bool-cases (x == c)) [
  | inl e ↦ rw e (Lacks-append d t _ h (replace_all-keeps_Lacks c d t s h k))
  | inr e ↦ rw e (kx, replace_all-keeps_Lacks c d t s h k)
]

-- What `escapeHtml` returns has no angle bracket in it: as text between tags it opens no tag.
pub escape_html-Lacks : (s : Bytes) → Lacks b'<' (escape_html s) × Lacks b'>' (escape_html s)
unfolding escape_html
escape_html-Lacks s =
    let amp = replace_all b'&' (codes "&amp;") s in
    let lt = replace_all b'<' (codes "&lt;") amp in
    (
      replace_all-keeps_Lacks b'>' b'<' (codes "&gt;") lt (ground arith)
          (replace_all-Lacks b'<' (codes "&lt;") amp (ground arith)),
      replace_all-Lacks b'>' (codes "&gt;") lt (ground arith),
    )

escape_html-keeps_Lacks : (s : Bytes) → Lacks quote s → Lacks quote (escape_html s)
unfolding escape_html
escape_html-keeps_Lacks s h = replace_all-keeps_Lacks b'>' quote (codes "&gt;") _ (ground arith) (
    replace_all-keeps_Lacks b'<' quote (codes "&lt;") _ (ground arith)
      (replace_all-keeps_Lacks b'&' quote (codes "&amp;") s (ground arith) h))

attribute_value-append : (s rest : Bytes) → Lacks quote s → attribute_value (s ++ quote ∷ rest) ≡ s
unfolding attribute_value
attribute_value-append [] rest h = refl
attribute_value-append (x ∷ s) rest (hx, h) = ground (arith, attribute_value-append s rest h)

-- A double quote in a key ends the `title` attribute that the page puts the key into: what is behind the
-- quote stands in the tag, outside of the attribute's value.
pub title_cut :
    (before behind rest : Bytes)
    → Lacks quote before
    → attribute_value (title_of (before ++ quote ∷ behind) rest) ≡ escape_html before
unfolding title_of
title_cut before behind rest h =
    rw
      (
        escape_html-append before (quote ∷ behind),
        escape_html-quote behind,
        append_assoc (escape_html before) (quote ∷ escape_html behind) (quote ∷ rest),
      )
      (attribute_value-append (escape_html before) _ (escape_html-keeps_Lacks before h))
