-- ===== src/Tests/TemplateCases.antt =====
-- The conditional blocks of a prompt at concrete inputs.
use hive_manager.Base.{◌≡◌, refl, [], ◌∷◌, Text, codes}
use hive_manager.Templates.{turn, render_key, render_if_blocks}
use hive_manager.Templates.Ended.{Turns, HasNoTurn, render_key-done}

abbrev nested : Text
nested = codes "a{{#if x}}b{{#if y}}c{{/if}}d{{/if}}e{{#if x}}f"

-- The block is replaced, the one within it stays, and one without an end stays as it is.
nested_kept : render_key (codes "x") (codes "yes") nested ≡ codes "ab{{#if y}}c{{/if}}de{{#if x}}f"
unfolding render_key turn
nested_kept = refl

nested_gone : render_key (codes "x") (codes "no") nested ≡ codes "ae{{#if x}}f"
unfolding render_key turn
nested_gone = refl

in_order :
    render_if_blocks nested ((codes "y", codes "1") ∷ (codes "x", codes "true") ∷ [])
    ≡ codes "abcde{{#if x}}f"
unfolding render_if_blocks turn
in_order = refl

-- An outer block without an end keeps the one within it as it is.
inner_left :
    render_key (codes "x") (codes "yes") (codes "{{#if x}}{{#if x}}b{{/if}}")
    ≡ codes "{{#if x}}{{#if x}}b{{/if}}"
unfolding render_key turn
inner_left = refl

render_key-done_example :
    Turns (codes "x") (codes "yes") nested (render_key (codes "x") (codes "yes") nested)
    × HasNoTurn (codes "x") (render_key (codes "x") (codes "yes") nested)
render_key-done_example = render_key-done (codes "x") (codes "yes") nested
