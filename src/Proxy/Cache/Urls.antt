-- ===== src/Proxy/Cache/Urls.antt =====
-- URLs in the cache of Lab31: when two are the same, and which entry a search finds.
use os_posix.Prelude.{
  ℕ, zero, suc, ◌<◌, ◌≡◌, refl, ap, inl, inr, Bool, true, false, ◌||◌, none, some, List, [], ◌∷◌,
  ◌++◌, arith, Bool-cases, Option-cases, length, get_elem?, set,
}
use os_posix.Proxy.Memory.{Bytes}
use os_posix.Proxy.Cache.{Entry, same_text, find_url}

pub same_text-eq : (s t : Bytes) → same_text s t ≡ true → s ≡ t
same_text-eq [] [] h = refl
same_text-eq (a ∷ s) (b ∷ t) h = ground (arith, same_text-eq s t)
same_text-eq [] (b ∷ t) h = cc
same_text-eq (a ∷ s) [] h = cc

pub same_text_self : (s : Bytes) → same_text s s ≡ true
same_text_self [] = refl
same_text_self (a ∷ s) = ground (arith, same_text_self s)

-- The entry that is found has the URL.
pub find_url-some :
    (url : Bytes) (cache : List Entry) (j : ℕ)
    → find_url url cache ≡ some j
    → (e : Entry) × (get_elem? cache j ≡ some e) × (e.url ≡ url) × (j < length cache)
unfolding find_url
find_url-some url [] j h = absurd (cc)
find_url-some url (e ∷ es) zero h = elim (Bool-cases (same_text e.url url)) [
  | inl hit ↦ (e, refl, same_text-eq e.url url hit, omega arith)
  | inr miss ↦ absurd (ground arith)
]
find_url-some url (e ∷ es) (suc j) h = elim (Bool-cases (same_text e.url url)) [
  | inl hit ↦ absurd (ground arith)
  | inr miss ↦
      let (e', at, same, lt) = find_url-some url es j (ground arith) in (e', at, same, omega arith)
]

pub same_text_sym : (s t : Bytes) → same_text s t ≡ same_text t s
same_text_sym [] [] = refl
same_text_sym (a ∷ s) (b ∷ t) = ground (arith, same_text_sym s t)
same_text_sym [] (b ∷ t) = refl
same_text_sym (a ∷ s) [] = refl

abbrev pub urls : List Entry → List Bytes
urls [] = []
urls (e ∷ es) = e.url ∷ urls es

abbrev pub has_url : Bytes → List Bytes → Bool
has_url u [] = false
has_url u (v ∷ vs) = same_text v u || has_url u vs

-- No URL stands twice.
abbrev pub Distinct : List Bytes → Type 0
Distinct [] = Unit
Distinct (v ∷ vs) = (has_url v vs ≡ false) × Distinct vs

pub find_url-none :
    (url : Bytes) (cache : List Entry)
    → find_url url cache ≡ none
    → has_url url (urls cache) ≡ false
unfolding find_url
find_url-none url [] h = refl
find_url-none url (e ∷ es) h = elim (Option-cases (find_url url es)) [
  | inl miss ↦ ground (arith, find_url-none url es miss)
  | inr (k, hit) ↦ absurd (ground arith)
]

pub urls-append : (es : List Entry) (e : Entry) → urls (es ++ e ∷ []) ≡ urls es ++ e.url ∷ []
urls-append [] e = refl
urls-append (f ∷ es) e = ap (λ us. f.url ∷ us) (urls-append es e)

pub urls-set :
    (cache : List Entry) (j : ℕ) (e e' : Entry)
    → get_elem? cache j ≡ some e
    → e'.url ≡ e.url
    → urls (set cache j e') ≡ urls cache
urls-set [] j e e' at same = refl
urls-set (f ∷ es) zero e e' at same = ground arith
urls-set (f ∷ es) (suc j) e e' at same = ap (λ us. f.url ∷ us) (urls-set es j e e' at same)

pub has_url-append :
    (u v : Bytes) (us : List Bytes) → has_url v (us ++ u ∷ []) ≡ (has_url v us || same_text u v)
has_url-append u v [] = ground arith
has_url-append u v (w ∷ us) = ground (arith, has_url-append u v us)

pub Distinct-append :
    (u : Bytes) (us : List Bytes) → Distinct us → has_url u us ≡ false → Distinct (us ++ u ∷ [])
Distinct-append u [] d out = (refl, tt)
Distinct-append u (v ∷ us) d out = (
  ground (arith, has_url-append u v us, same_text_sym u v),
  Distinct-append u us d.1 (ground arith),
)
