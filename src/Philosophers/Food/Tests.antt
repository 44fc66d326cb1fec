-- ===== src/Philosophers/Food/Tests.antt =====
-- Calls of `food_on_table`.
use os_posix.Prelude.{◌≡◌, refl, some, [], ◌∷◌, arith, get_elem?}
use os_posix.Philosophers.Food.{food, serve, dishes, dishes-serve, serve-get_elem?}

serve_three : serve 4 3 ≡ 2 ∷ 1 ∷ 0 ∷ 0 ∷ []
unfolding serve
serve_three = refl

serve-get_elem?_example : get_elem? (serve 60 food) 0 ≡ some 49
serve-get_elem?_example = serve-get_elem? 60 food 0 (omega arith)

dishes-serve_test : dishes (serve 60 food) ≡ 49
dishes-serve_test = dishes-serve 60 food
