-- ===== src/Tests/Browser.antt =====
-- The browser history on small inputs.
use mcpyeahyouknowme.Prelude.{◌≡◌, refl, nat_eq}
use mcpyeahyouknowme.Sources.Text.{text_eq, is_space, trim_space, codes}
use mcpyeahyouknowme.Sources.BrowserHistory.{domain_from_url, normalize_browser}

domain : domain_from_url (codes " https://a.com:80/b?c ") ≡ codes "a.com"
unfolding domain_from_url trim_space is_space nat_eq
domain = refl

browser : normalize_browser (λ t. t) (codes " brave ") ≡ codes "brave"
unfolding normalize_browser text_eq trim_space is_space
browser = refl
