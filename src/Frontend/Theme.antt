-- ===== src/Frontend/Theme.antt =====
-- web/src/frontend/lib/theme.ts: the colour theme, where it is stored, and who is told of it.
pub mod Shown
use mesh2mesh.Base.{
  keep, Text, lit, text_eq, ◌==◌, if◌then◌else◌, ◌or◌, ℕ, Bool, true, false, not, List, [], ◌∷◌,
  map,
}
use mesh2mesh.Frontend.Hooks.{Storage, read_item, write_item}

pub data Theme : Type 0 where
  light dark system : Theme

pub theme_text : Theme → Text
theme_text light = lit "light"
theme_text dark = lit "dark"
theme_text system = lit "system"

-- `stored()`
pub stored : Storage → Theme
stored storage =
    let v = read_item storage or [] in
    if text_eq v (lit "light") then light else if text_eq v (lit "dark") then dark else system

-- The module's variables and what it changes: `listeners` holds, for each component that uses the
-- theme, the one it was last rendered with.
pub record ThemePage : Type 0 where
  pub current : Theme
  pub storage : Storage
  pub prefers_dark : Bool
  pub dark_class : Bool
  pub listeners : List (ℕ × Theme)

abbrev pub is_dark : Theme → Bool → Bool
is_dark light prefers = false
is_dark dark prefers = true
is_dark system prefers = prefers

-- `apply()`
abbrev pub apply : ThemePage → ThemePage
apply p = record p { dark_class = is_dark p.current p.prefers_dark }

-- Loading the module: what the class was before does not count.
unfoldable pub load_theme : Storage → Bool → ThemePage
unfolding stored
load_theme storage prefers = apply (record {
  current = stored storage;
  storage = storage;
  prefers_dark = prefers;
  dark_class = false;
  listeners = [];
})

abbrev pub render_with : Theme → ℕ × Theme → ℕ × Theme
render_with t (n, u) = (n, t)

-- `setTheme(theme)`
unfoldable pub set_theme : Theme → ThemePage → ThemePage
unfolding theme_text
set_theme t p =
    let q = apply (record p { current = t; storage = write_item (theme_text t) p.storage }) in
    record q { listeners = map (render_with t) q.listeners }

-- The media query's "change" event.
pub media_changed : Bool → ThemePage → ThemePage
media_changed prefers p = apply (record p { prefers_dark = prefers })

-- `useTheme()`, as a component is mounted and as it is taken away.
unfoldable pub mount : ℕ → ThemePage → ThemePage
mount n p = record p { listeners = (n, p.current) ∷ p.listeners }

abbrev is_other : ℕ → ℕ × Theme → Bool
is_other n (m, t) = not (n == m)

pub unmount : ℕ → ThemePage → ThemePage
unmount n p = record p { listeners = keep (is_other n) p.listeners }
