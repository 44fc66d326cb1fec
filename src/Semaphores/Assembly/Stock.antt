-- ===== src/Semaphores/Assembly/Stock.antt =====
-- The stock of the assembly line of Lab22/main.c, and what its threads hold.
use os_posix.Prelude.{ℕ, zero, suc, ◌+◌, ◌≤◌, ◌<◌, ◌≡◌, refl, Bool, true, false, arith, dec_lt}
use os_posix.Semaphores.Assembly.{
  ModulePlace, wants_a, wants_b, posts_module, WidgetPlace, wants_module, wants_c, prints_widget,
  Line, Step, create_a, create_b, create_c, take_a, take_b, post_module, take_module, take_c,
  print_widget, Reachable, begins, steps,
}

-- What the threads hold.
abbrev held_a : ModulePlace → ℕ
held_a wants_a = 0
held_a wants_b = 1
held_a posts_module = 1

abbrev held_b : ModulePlace → ℕ
held_b wants_a = 0
held_b wants_b = 0
held_b posts_module = 1

abbrev held_module : WidgetPlace → ℕ
held_module wants_module = 0
held_module wants_c = 1
held_module prints_widget = 1

abbrev held_c : WidgetPlace → ℕ
held_c wants_module = 0
held_c wants_c = 0
held_c prints_widget = 1

-- What was made is in stock, held, or part of something.
pub record IsBalanced (s : Line) : Type 0 where
  pub a : s.made_a ≡ s.detail_a + held_a s.module_at + s.modules
  pub b : s.made_b ≡ s.detail_b + held_b s.module_at + s.modules
  pub c : s.made_c ≡ s.detail_c + held_c s.widget_at + s.widgets
  pub m : s.modules ≡ s.module_sem + held_module s.widget_at + s.widgets

step-IsBalanced : (s s' : Line) → IsBalanced s → Step s s' → IsBalanced s'
step-IsBalanced s s' v create_a = record { a = ground (arith, v.a); b = v.b; c = v.c; m = v.m }
step-IsBalanced s s' v create_b = record { a = v.a; b = ground (arith, v.b); c = v.c; m = v.m }
step-IsBalanced s s' v create_c = record { a = v.a; b = v.b; c = ground (arith, v.c); m = v.m }
step-IsBalanced s s' v (take_a n at some_a) = record {
  a = ground (arith, v.a);
  b = ground (arith, v.b);
  c = v.c;
  m = v.m;
}
step-IsBalanced s s' v (take_b n at some_b) = record {
  a = ground (arith, v.a);
  b = ground (arith, v.b);
  c = v.c;
  m = v.m;
}
step-IsBalanced s s' v (post_module at) = record {
  a = ground (arith, v.a);
  b = ground (arith, v.b);
  c = v.c;
  m = ground (arith, v.m);
}
step-IsBalanced s s' v (take_module n at some_m) = record {
  a = v.a;
  b = v.b;
  c = ground (arith, v.c);
  m = ground (arith, v.m);
}
step-IsBalanced s s' v (take_c n at some_c) = record {
  a = v.a;
  b = v.b;
  c = ground (arith, v.c);
  m = ground (arith, v.m);
}
step-IsBalanced s s' v (print_widget at) = record {
  a = v.a;
  b = v.b;
  c = ground (arith, v.c);
  m = ground (arith, v.m);
}

pub Reachable-IsBalanced : (s : Line) → Reachable s → IsBalanced s
Reachable-IsBalanced s begins = record { a = refl; b = refl; c = refl; m = refl }
Reachable-IsBalanced s (steps {s = r} h t) = step-IsBalanced r s (Reachable-IsBalanced r h) t

-- In every state that the threads of Lab22 reach, no more widgets were made than modules and
-- details C, and no more modules than details A and B.
pub nothing_from_nothing :
    (s : Line)
    → Reachable s
    → (s.widgets ≤ s.modules)
      × (s.widgets ≤ s.made_c)
      × (s.modules ≤ s.made_a)
      × (s.modules ≤ s.made_b)
nothing_from_nothing s h =
    let v = Reachable-IsBalanced s h in
    (omega (arith, v.m), omega (arith, v.c), omega (arith, v.a), omega (arith, v.b))

-- Is it a step of the thread that makes modules or of the one that makes widgets?
abbrev pub assembles : {s s' : Line} → Step s s' → Bool
assembles create_a = false
assembles create_b = false
assembles create_c = false
assembles (take_a n p q) = true
assembles (take_b n p q) = true
assembles (post_module p) = true
assembles (take_module n p q) = true
assembles (take_c n p q) = true
assembles (print_widget p) = true

one_less : (n : ℕ) → 0 < n → (k : ℕ) × (n ≡ suc k)
one_less zero h = absurd (omega arith)
one_less (suc k) h = (k, refl)

abbrev HasStep : Line → Type 0
HasStep s = (s' : Line) × (t : Step s s') × (assembles t ≡ true)

-- A module is made, when nothing but a module is missing.
module_moves :
    (s : Line) (m : ModulePlace)
    → s.module_at ≡ m
    → s.modules < s.made_a
    → s.modules < s.made_b
    → IsBalanced s
    → HasStep s
module_moves s wants_a at a b v =
    let (n, e) = one_less s.detail_a (ground (arith, v.a)) in (_, take_a n at e, refl)
module_moves s wants_b at a b v =
    let (n, e) = one_less s.detail_b (ground (arith, v.b)) in (_, take_b n at e, refl)
module_moves s posts_module at a b v = (_, post_module at, refl)

widget_moves :
    (s : Line) (w : WidgetPlace)
    → s.widget_at ≡ w
    → s.widgets < s.made_a
    → s.widgets < s.made_b
    → s.widgets < s.made_c
    → IsBalanced s
    → HasStep s
widget_moves s wants_module at a b c v = elim (dec_lt 0 s.module_sem) [
  | yes some_left ↦ let (n, e) = one_less s.module_sem some_left in (_, take_module n at e, refl)
  | no none_left ↦
      let same : s.modules ≡ s.widgets = ground (arith, v.m) in
      module_moves s s.module_at refl (omega arith) (omega arith) v
]
widget_moves s wants_c at a b c v =
    let (n, e) = one_less s.detail_c (ground (arith, v.c)) in (_, take_c n at e, refl)
widget_moves s prints_widget at a b c v = (_, print_widget at, refl)

-- In every state that the threads of Lab22 reach in which more details of each kind were made
-- than widgets, the maker of modules or the maker of widgets can take a step.
pub line_moves :
    (s : Line)
    → Reachable s
    → s.widgets < s.made_a
    → s.widgets < s.made_b
    → s.widgets < s.made_c
    → (s' : Line) × (t : Step s s') × (assembles t ≡ true)
line_moves s h a b c = widget_moves s s.widget_at refl a b c (Reachable-IsBalanced s h)
