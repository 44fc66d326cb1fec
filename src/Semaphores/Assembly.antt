-- ===== src/Semaphores/Assembly.antt =====
-- Lab22/main.c: an assembly line. A widget takes a detail C and a module, and a module a detail A
-- and a detail B. The counts of what was made stand for the lines that are printed.
pub mod Stock
use os_posix.Prelude.{ℕ, zero, suc, ◌+◌, ◌≡◌}

-- Where `createModule` is in its loop, and where `createWidget` is.
pub data ModulePlace : Type 0 where
  wants_a wants_b posts_module : ModulePlace

pub data WidgetPlace : Type 0 where
  wants_module wants_c prints_widget : WidgetPlace

pub record Line : Type 0 where
  pub detail_a : ℕ
  pub detail_b : ℕ
  pub detail_c : ℕ
  pub module_sem : ℕ
  pub module_at : ModulePlace
  pub widget_at : WidgetPlace
  pub made_a : ℕ
  pub made_b : ℕ
  pub made_c : ℕ
  pub modules : ℕ
  pub widgets : ℕ

abbrev pub start : Line
start = record {
  detail_a = 0;
  detail_b = 0;
  detail_c = 0;
  module_sem = 0;
  module_at = wants_a;
  widget_at = wants_module;
  made_a = 0;
  made_b = 0;
  made_c = 0;
  modules = 0;
  widgets = 0;
}

pub data Step (s : Line) : Line → Type 0 where
  create_a : Step s (record s { detail_a = s.detail_a + 1; made_a = s.made_a + 1 })
  create_b : Step s (record s { detail_b = s.detail_b + 1; made_b = s.made_b + 1 })
  create_c : Step s (record s { detail_c = s.detail_c + 1; made_c = s.made_c + 1 })
  take_a :
      (n : ℕ)
      → s.module_at ≡ wants_a
      → s.detail_a ≡ suc n
      → Step s (record s { detail_a = n; module_at = wants_b })
  take_b :
      (n : ℕ)
      → s.module_at ≡ wants_b
      → s.detail_b ≡ suc n
      → Step s (record s { detail_b = n; module_at = posts_module })
  post_module :
      s.module_at ≡ posts_module
      → Step s
          (record s { module_sem = s.module_sem + 1; module_at = wants_a; modules = s.modules + 1 })
  take_module :
      (n : ℕ)
      → s.widget_at ≡ wants_module
      → s.module_sem ≡ suc n
      → Step s (record s { module_sem = n; widget_at = wants_c })
  take_c :
      (n : ℕ)
      → s.widget_at ≡ wants_c
      → s.detail_c ≡ suc n
      → Step s (record s { detail_c = n; widget_at = prints_widget })
  print_widget :
      s.widget_at ≡ prints_widget
      → Step s (record s { widget_at = wants_module; widgets = s.widgets + 1 })

pub data Reachable : Line → Type 0 where
  begins : Reachable start
  steps : {s s' : Line} → Reachable s → Step s s' → Reachable s'
