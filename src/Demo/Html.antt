-- ===== src/Demo/Html.antt =====
-- escapeHtml and the templates of one value, demo/src/dashboard.ts. A text is the list of its code
-- points.
pub mod Escaping
mod Tests
use test_assestment.Common.{
  ℕ, List, [], ◌∷◌, ◌++◌, Option, none, some, nat_eq, if◌then◌else◌, codes,
}

-- `s.replaceAll(…)` for a text of one character.
unfoldable pub replace_all : ℕ → List ℕ → List ℕ → List ℕ
replace_all c t [] = []
replace_all c t (x ∷ s) = let rest = replace_all c t s in if nat_eq x c then t ++ rest else x ∷ rest

unfoldable pub escape_html : List ℕ → List ℕ
unfolding replace_all
escape_html value = replace_all b'\'' (codes "&#39;") (
    replace_all b'"' (codes "&quot;") (
      replace_all b'>' (codes "&gt;")
        (replace_all b'<' (codes "&lt;") (replace_all b'&' (codes "&amp;") value))))

unfoldable pub empty : List ℕ
empty = codes "<p class=\"muted\">No records yet.</p>"

-- An empty text is no link.
unfoldable pub link : Option (List ℕ) → List ℕ
link none = []
link (some []) = []
link (some (c ∷ url)) =
    codes "<a href=\""
    ++ (escape_html (c ∷ url) ++ (codes "\">" ++ (escape_html (c ∷ url) ++ codes "</a>")))

-- The text that `JSON.stringify(value, null, 2)` gives, or none for a value that is undefined.
unfoldable pub json_block : Option (List ℕ) → List ℕ
json_block none = []
json_block (some json) = codes "<pre>" ++ (escape_html json ++ codes "</pre>")
