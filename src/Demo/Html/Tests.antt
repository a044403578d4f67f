-- ===== src/Demo/Html/Tests.antt =====
-- Runs of the templates, and the theorem at a text with markup.
use test_assestment.Common.{◌≡◌, refl, none, some, codes}
use test_assestment.Demo.Html.{escape_html, link, json_block}
use test_assestment.Demo.Html.Escaping
use test_assestment.Demo.Html.Escaping.{decode}

escaped : escape_html (codes "<a b='&lt;'>") ≡ codes "&lt;a b=&#39;&amp;lt;&#39;&gt;"
unfolding escape_html
escaped = refl

link_of_text :
    link (some (codes "/x?a=1&b=\"2\""))
    ≡ codes "<a href=\"/x?a=1&amp;b=&quot;2&quot;\">/x?a=1&amp;b=&quot;2&quot;</a>"
unfolding link escape_html
link_of_text = refl

no_block : json_block none ≡ codes ""
unfolding json_block
no_block = refl

decode-escape_html_example :
    decode (escape_html (codes "<script>alert('&amp;')</script>")) none
    ≡ codes "<script>alert('&amp;')</script>"
decode-escape_html_example = Escaping.decode-escape_html (codes "<script>alert('&amp;')</script>")
