-- ===== src/Common/Paths/Join.antt =====
-- filepath.Join of two paths.
use mathlib.Core.Path.{◌≡◌, refl, sym, ap, ◌∙◌}
use mathlib.Core.Logic.{◌≢◌}
use mathlib.Core.Bool.{true≢false}
use mathlib.Core.List.{List, [], ◌∷◌, ◌++◌}
use fylane.Common.Tests.{==→ne}
use fylane.Common.Lists.{All, All-append}
use fylane.Common.Text.{Text, text_beq, text_eq}
use fylane.Common.Paths.{slash, join_words, join, non_empty, clean}
use fylane.Common.Paths.Split.{join_words-append}
use fylane.Common.Paths.Walk.{IsPlain, rooted_path, clean-rooted_path}

pub join_two :
    (dest name : Text)
    → dest ≢ []
    → name ≢ []
    → join (dest ∷ name ∷ []) ≡ clean (dest ++ slash ∷ name)
unfolding join non_empty join_words text_beq
join_two [] name n m = absurd (n refl)
join_two (c ∷ dest) [] n m = absurd (m refl)
join_two (c ∷ dest) (d ∷ name) n m = refl

pub join_words-plain : (ws : List Text) → ws ≢ [] → All IsPlain ws → join_words ws ≢ []
unfolding join_words text_beq
join_words-plain [] n h e = n refl
join_words-plain (w ∷ []) n (h, _) e = ==→ne w h.some_byte e
join_words-plain ([] ∷ v ∷ ws) n (h, _) e = true≢false h.some_byte
join_words-plain ((c ∷ w) ∷ v ∷ ws) n h e = cc

-- Plain words behind a path from the root.
pub join-rooted_path :
    (rs vs : List Text)
    → rs ≢ []
    → vs ≢ []
    → All IsPlain rs
    → All IsPlain vs
    → join (rooted_path rs ∷ join_words vs ∷ []) ≡ rooted_path (rs ++ vs)
join-rooted_path rs vs n m p q =
    join_two (rooted_path rs) (join_words vs) (λ e. cc) (join_words-plain vs m q)
    ∙ ap (λ (t : Text). clean (slash ∷ t)) (sym (join_words-append rs vs n m))
    ∙ clean-rooted_path (rs ++ vs) (All-append IsPlain rs vs p q)
