-- ===== src/Tests/Uris.antt =====
-- The URIs of crates/mcpdef-policy/src/uri.rs at concrete texts.
use mcpdef.Prelude.{[], ◌∷◌, ◌≡◌, refl, none, some}
use mcpdef.Str.{Str, str}
use mcpdef.Uri.{normalize}
use mcpdef.Uri.Refusal.{ok, err, double_encoded}
use mcpdef.Uri.Escape
use mcpdef.Uri.Escape.{unescape}
use mcpdef.Uri.Escape.Laws.{unescape_idempotent}
use mcpdef.Uri.Dots.{remove_dot_segments}
use mcpdef.Uri.Dots.Laws.{NoDots, remove_dot_segments-NoDots}
use mcpdef.Uri.Parts.{Uri, before_path, assemble}
use mcpdef.Uri.Parts.Laws.{HasParts, assemble-HasParts}
use mcpdef.Uri.Laws.{IsSafe, normalize-IsSafe}

-- `file:///a/b`.
abbrev pub plain : Uri
plain = record {
  text = str "file:///a/b";
  path_start = 7;
  path_end = 11;
  segment_places = (7, 7) ∷ (8, 9) ∷ (10, 11) ∷ [];
  query_place = none;
  fragment_place = none;
}

plain_normal : normalize (str "FILE://LocalHost/x/../%61/b") ≡ ok plain
unfolding normalize
plain_normal = refl

normalize-IsSafe_example : IsSafe plain
normalize-IsSafe_example = normalize-IsSafe (str "FILE://LocalHost/x/../%61/b") plain plain_normal

normalize_refuses : normalize (str "file:///a/%25%32%65") ≡ err double_encoded
unfolding normalize
normalize_refuses = refl

remove_dot_segments-NoDots_example :
    (out : Str) × (remove_dot_segments (str "/a/b/../../c/./d/..") ≡ some out) × NoDots out
remove_dot_segments-NoDots_example = remove_dot_segments-NoDots (str "/a/b/../../c/./d/..")

remove_dot_segments_run : remove_dot_segments (str "/a/b/../../c/./d/..") ≡ some (str "/c/")
unfolding remove_dot_segments
remove_dot_segments_run = refl

unescaped_once : unescape (str "/%7Ebob%3a") Escape.path ≡ ok (str "/~bob%3A")
unfolding unescape
unescaped_once = refl

unescape_idempotent_example : unescape (str "/~bob%3A") Escape.path ≡ ok (str "/~bob%3A")
unescape_idempotent_example =
    unescape_idempotent Escape.path (str "/%7Ebob%3a") (str "/~bob%3A") unescaped_once

assemble-HasParts_example :
    HasParts
      (assemble (str "http") (some (str "h.com")) (str "/a/b") (some (str "q")) none)
      (before_path (str "http") (some (str "h.com")))
      (str "/a/b")
      (some (str "q"))
      none
assemble-HasParts_example =
    assemble-HasParts (str "http") (some (str "h.com")) (str "/a/b") (some (str "q")) none
