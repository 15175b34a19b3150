-- ===== src/Frontend/Theme/Shown.antt =====
-- The theme that a page shows, over the events of web/src/frontend/lib/theme.ts.
use mesh2mesh.Base.{
  keep, All, Text, lit, Bool-cases, ℕ, ◌≡◌, refl, inl, inr, Bool, Option, some, List, [], ◌∷◌, map,
}
use mesh2mesh.Frontend.Hooks.{Storage, writable}
use mesh2mesh.Frontend.Theme.{
  Theme, light, dark, system, theme_text, stored, ThemePage, is_dark, load_theme, render_with,
  set_theme, media_changed, mount, unmount,
}

abbrev Shows : Theme → ℕ × Theme → Type 0
Shows t (n, u) = u ≡ t

-- The class of the document and every mounted component follow the current theme.
abbrev pub IsShown : ThemePage → Type 0
IsShown p = (p.dark_class ≡ is_dark p.current p.prefers_dark) × All (Shows p.current) p.listeners

pub data ThemeReach : ThemePage → Type 0 where
  loads : (s : Storage) (b : Bool) → ThemeReach (load_theme s b)
  sets : (t : Theme) (p : ThemePage) → ThemeReach p → ThemeReach (set_theme t p)
  media : (b : Bool) (p : ThemePage) → ThemeReach p → ThemeReach (media_changed b p)
  mounts : (n : ℕ) (p : ThemePage) → ThemeReach p → ThemeReach (mount n p)
  unmounts : (n : ℕ) (p : ThemePage) → ThemeReach p → ThemeReach (unmount n p)

All-rendered : (t : Theme) (ls : List (ℕ × Theme)) → All (Shows t) (map (render_with t) ls)
All-rendered t [] = tt
All-rendered t ((n, u) ∷ ls) = (refl, All-rendered t ls)

All-kept :
    (t : Theme) (p : ℕ × Theme → Bool) (ls : List (ℕ × Theme))
    → All (Shows t) ls
    → All (Shows t) (keep p ls)
All-kept t p [] h = tt
All-kept t p (l ∷ ls) (e, h) = elim (Bool-cases (p l)) [
  | inl is_in ↦ rw is_in (e, All-kept t p ls h)
  | inr is_out ↦ rw is_out (All-kept t p ls h)
]

-- At every moment the document's class is that of the current theme, and every mounted component
-- was last rendered with it.
pub ThemeReach-IsShown : (p : ThemePage) → ThemeReach p → IsShown p
unfolding load_theme set_theme media_changed mount unmount
ThemeReach-IsShown _ (loads s b) = (refl, tt)
ThemeReach-IsShown _ (sets t p r) = (refl, All-rendered t p.listeners)
ThemeReach-IsShown _ (media b p r) = (refl, (ThemeReach-IsShown p r).1)
ThemeReach-IsShown _ (mounts n p r) = let (d, ls) = ThemeReach-IsShown p r in (d, (refl, ls))
ThemeReach-IsShown _ (unmounts n p r) =
    let (d, ls) = ThemeReach-IsShown p r in (d, All-kept p.current _ p.listeners ls)

stored-theme_text : (t : Theme) → stored (writable (some (theme_text t))) ≡ t
unfolding stored theme_text lit
stored-theme_text light = refl
stored-theme_text dark = refl
stored-theme_text system = refl

-- Where the browser stores it, a theme that was set is the one that the next load of the page shows.
load_theme-set_theme :
    (t : Theme) (p : ThemePage) (v : Option Text) (prefers : Bool)
    → p.storage ≡ writable v
    → (load_theme (set_theme t p).storage prefers).current ≡ t
unfolding load_theme set_theme
load_theme-set_theme t p v prefers h = rw h (stored-theme_text t)
