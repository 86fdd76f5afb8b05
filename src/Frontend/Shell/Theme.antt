-- ===== src/Frontend/Shell/Theme.antt =====
-- frontend/src/theme.ts and components/ThemeToggle.tsx.
use Prim.Native.String.{◌++◌}
use qlab.Base.{
  ◌≡◌, refl, ℕ, suc, zero, Bool, true, false, Option, none, some, String, Map, lookup, insert,
  str_eq, lookup-insert_self, if◌then◌else◌, sym, ap,
}

pub data Theme : Type 0 where
  light dark : Theme

abbrev pub theme_name : Theme → String
theme_name light = "light"
theme_name dark = "dark"

abbrev pub storage_key : String
storage_key = "qlab-theme"

-- localStorage, and whether <html> has the class `dark`.
pub record Page : Type 0 where
  pub storage : Map String
  pub dark_class : Bool

abbrev pub saved_theme : Option String → Theme
saved_theme none = dark
saved_theme (some s) = if str_eq s "light" then light else dark

-- A saved "dark" and anything unknown give the same.
unfoldable pub get_theme : Page → Theme
get_theme page = saved_theme (lookup storage_key page.storage)

abbrev pub is_dark : Theme → Bool
is_dark light = false
is_dark dark = true

unfoldable pub apply_theme : Theme → Page → Page
apply_theme theme page = record {
  storage = insert storage_key (theme_name theme) page.storage;
  dark_class = is_dark theme;
}

-- The toggle's local state beside the page; `main.tsx` applies the saved theme before the first paint.
pub record Toggle : Type 0 where
  pub page : Page
  pub theme : Theme

unfoldable pub mount : Page → Toggle
unfolding get_theme apply_theme
mount page =
    let shown = apply_theme (get_theme page) page in
    record { page = shown; theme = get_theme shown }

abbrev pub other : Theme → Theme
other dark = light
other light = dark

unfoldable pub toggle : Toggle → Toggle
unfolding apply_theme
toggle t = record { page = apply_theme (other t.theme) t.page; theme = other t.theme }

abbrev pub button_label : Theme → String
button_label dark = "☀ Light"
button_label light = "☾ Dark"

unfoldable pub aria_label : Theme → String
aria_label theme = "Switch to " ++ (theme_name (other theme) ++ " mode")

abbrev pub toggles : ℕ → Toggle → Toggle
toggles zero t = t
toggles (suc n) t = toggles n (toggle t)

-- The button, the page's class and what a reload would read agree.
abbrev pub InStep : Toggle → Type 0
InStep t = (get_theme t.page ≡ t.theme) × (t.page.dark_class ≡ is_dark t.theme)

get_theme-apply : (theme : Theme) (page : Page) → get_theme (apply_theme theme page) ≡ theme
unfolding get_theme apply_theme
get_theme-apply light page = rw (lookup-insert_self storage_key "light" page.storage) refl
get_theme-apply dark page = rw (lookup-insert_self storage_key "dark" page.storage) refl

toggles-InStep : (n : ℕ) (t : Toggle) → InStep t → InStep (toggles n t)
unfolding toggle
toggles-InStep zero t h = h
toggles-InStep (suc n) t h =
    toggles-InStep n (toggle t) (get_theme-apply (other t.theme) t.page, unfold apply_theme in refl)

-- From the mount on, whatever was stored before and however often it is toggled, the toggle shows
-- the theme that the page has and that a reload would find in localStorage.
pub mount-InStep : (page : Page) (n : ℕ) → InStep (toggles n (mount page))
unfolding mount apply_theme
mount-InStep page n =
    toggles-InStep n (mount page) (refl, ap is_dark (sym (get_theme-apply (get_theme page) page)))
