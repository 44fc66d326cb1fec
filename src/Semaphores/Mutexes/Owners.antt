-- ===== src/Semaphores/Mutexes/Owners.antt =====
-- The owners of the three mutexes of Lab10/main.c, counted on along the circle.
use os_posix.Prelude.{
  ℕ, ◌+◌, ◌*◌, ◌%◌, ◌≤◌, ◌<◌, ◌≡◌, ◌≢◌, Option, none, some, ◌∙◌, update, update_self, update_ne,
  arith, ℕ_discrete,
}
use os_posix.Semaphores.Alternation.{Line, parent, child}

abbrev pub mutex : ℕ → ℕ
mutex y = (2 * y + 1) % 3

mutex_ne : (x y : ℕ) → x < y → y < x + 3 → mutex x ≢ mutex y
mutex_ne x y h l = λ e. omega arith

mutex_round : (x : ℕ) → mutex (x + 3) ≡ mutex x
mutex_round x = omega arith

-- The child owns the mutexes from a on before b, the parent those from c on before d.
pub record Owned (o : ℕ → Option Line) (a b c d : ℕ) : Type 0 where
  pub low : a ≤ b
  pub mid : b ≤ c
  pub top : c ≤ d
  pub round : d ≤ a + 3
  pub childs : (y : ℕ) → a ≤ y → y < b → o (mutex y) ≡ some child
  pub gap : (y : ℕ) → b ≤ y → y < c → o (mutex y) ≡ none
  pub parents : (y : ℕ) → c ≤ y → y < d → o (mutex y) ≡ some parent
  pub rest : (y : ℕ) → d ≤ y → y < a + 3 → o (mutex y) ≡ none

module _ (o : ℕ → Option Line) (a b c d : ℕ) (v : Owned o a b c d) where
  -- A mutex that is updated, and the others of the circle.
  other :
      (w : Option Line) (x y : ℕ) → x < y → y < x + 3 → update o (mutex x) w (mutex y) ≡ o (mutex y)
  other w x y h l = update_ne o (mutex x) w (mutex y) (mutex_ne x y h l)

  before :
      (w : Option Line) (x y : ℕ) → y < x → x < y + 3 → update o (mutex x) w (mutex y) ≡ o (mutex y)
  before w x y h l = update_ne o (mutex x) w (mutex y) (λ e. omega arith)

  pub child_takes : b < c → Owned (update o (mutex b) (some child)) a (b + 1) c d
  child_takes h = record {
    low = omega (arith, v.low);
    mid = omega arith;
    top = v.top;
    round = v.round;
    childs = λ y p q. elim (ℕ_discrete y b) [
      | yes e ↦ rw e (update_self o (mutex b) (some child))
      | no n ↦
          before (some child) b y (omega arith) (omega (arith, v.top, v.round))
          ∙ v.childs y p (omega arith)
    ];
    gap = λ y p q.
        other (some child) b y (omega arith) (omega (arith, v.low, v.top, v.round))
        ∙ v.gap y (omega arith) q;
    parents = λ y p q.
        other (some child) b y (omega arith) (omega (arith, v.low, v.top, v.round))
        ∙ v.parents y p q;
    rest = λ y p q.
        other (some child) b y (omega (arith, v.top)) (omega (arith, v.low)) ∙ v.rest y p q;
  }

  pub parent_takes : d < a + 3 → Owned (update o (mutex d) (some parent)) a b c (d + 1)
  parent_takes h = record {
    low = v.low;
    mid = v.mid;
    top = omega (arith, v.top);
    round = omega arith;
    childs = λ y p q.
        before (some parent) d y (omega (arith, v.mid, v.top)) (omega arith) ∙ v.childs y p q;
    gap = λ y p q.
        before (some parent) d y (omega (arith, v.top)) (omega (arith, v.low)) ∙ v.gap y p q;
    parents = λ y p q. elim (ℕ_discrete y d) [
      | yes e ↦ rw e (update_self o (mutex d) (some parent))
      | no n ↦
          before (some parent) d y (omega arith) (omega (arith, v.low, v.mid))
          ∙ v.parents y p (omega arith)
    ];
    rest = λ y p q.
        other (some parent) d y (omega arith) (omega (arith, v.low, v.mid, v.top))
        ∙ v.rest y (omega arith) q;
  }

  pub child_gives : a < b → Owned (update o (mutex a) none) (a + 1) b c d
  child_gives h = record {
    low = omega arith;
    mid = v.mid;
    top = v.top;
    round = omega (arith, v.round);
    childs = λ y p q.
        other none a y (omega arith) (omega (arith, v.mid, v.top, v.round))
        ∙ v.childs y (omega arith) q;
    gap = λ y p q. other none a y (omega arith) (omega (arith, v.top, v.round)) ∙ v.gap y p q;
    parents =
        λ y p q. other none a y (omega (arith, v.mid)) (omega (arith, v.round)) ∙ v.parents y p q;
    rest = λ y p q. elim (ℕ_discrete y (a + 3)) [
      | yes e ↦ rw (e, mutex_round a) (update_self o (mutex a) none)
      | no n ↦ other none a y (omega (arith, v.mid, v.top)) (omega arith) ∙ v.rest y p (omega arith)
    ];
  }

  pub parent_gives : c < d → Owned (update o (mutex c) none) a b (c + 1) d
  parent_gives h = record {
    low = v.low;
    mid = omega (arith, v.mid);
    top = omega arith;
    round = v.round;
    childs =
        λ y p q. before none c y (omega (arith, v.mid)) (omega (arith, v.round)) ∙ v.childs y p q;
    gap = λ y p q. elim (ℕ_discrete y c) [
      | yes e ↦ rw e (update_self o (mutex c) none)
      | no n ↦
          before none c y (omega arith) (omega (arith, v.low, v.round)) ∙ v.gap y p (omega arith)
    ];
    parents = λ y p q.
        other none c y (omega arith) (omega (arith, v.low, v.mid, v.round))
        ∙ v.parents y (omega arith) q;
    rest = λ y p q. other none c y (omega arith) (omega (arith, v.low, v.mid)) ∙ v.rest y p q;
  }
