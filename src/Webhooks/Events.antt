-- ===== src/Webhooks/Events.antt =====
-- The events to which an endpoint is subscribed, through the text column that holds them.
use Prim.Native.Char.{code}
use kaats_v.Base.{◌≡◌, refl, ◌∙◌, ap, Bool, false, ◌||◌, List, [], ◌∷◌, String, arith, All}
use kaats_v.Memory.{elem_text}
use kaats_v.Webhooks.{append, join, is_comma, split, strip, strip_all, is_empty, joined, wants}

abbrev pub has_comma : String → Bool
has_comma String.[] = false
has_comma (String.◌∷◌ c s) = is_comma (code c) || has_comma s

-- A name of an event: not empty, without commas, and without white space around it.
abbrev pub IsName : String → Type 0
IsName s = (has_comma s ≡ false) × (strip s ≡ s) × (is_empty s ≡ false)

split-plain : (s : String) → has_comma s ≡ false → split s ≡ s ∷ []
unfolding split
split-plain String.[] h = refl
split-plain (String.◌∷◌ c s) h = ground (arith, split-plain s)

split-append : (s t : String) → has_comma s ≡ false → split (append s (append "," t)) ≡ s ∷ split t
unfolding split
split-append String.[] t h = refl
split-append (String.◌∷◌ c s) t h = ground (arith, split-append s t)

split-join :
    (x : String) (xs : List String)
    → All (λ s. has_comma s ≡ false) (x ∷ xs)
    → split (join (x ∷ xs)) ≡ x ∷ xs
unfolding join
split-join x [] h = split-plain x h.0
split-join x (y ∷ xs) h = split-append x (join (y ∷ xs)) h.0 ∙ ap (λ l. x ∷ l) (split-join y xs h.1)

names_plain : (xs : List String) → All IsName xs → All (λ s. has_comma s ≡ false) xs
names_plain [] h = tt
names_plain (x ∷ xs) h = (h.0.0, names_plain xs h.1)

strip_all-names : (xs : List String) → All IsName xs → strip_all xs ≡ xs
unfolding strip_all
strip_all-names [] h = refl
strip_all-names (x ∷ xs) h = rw (h.0.1, strip_all-names xs h.1) refl

join-not_empty :
    (x : String) (xs : List String) → is_empty x ≡ false → is_empty (join (x ∷ xs)) ≡ false
unfolding join
join-not_empty String.[] xs h = absurd (cc h)
join-not_empty (String.◌∷◌ c s) [] h = refl
join-not_empty (String.◌∷◌ c s) (y ∷ xs) h = refl

-- Names of events that are stored as a text, at least one, are read back as they were: an endpoint
-- that was created for them wants an event exactly when it is among them.
pub wants-joined :
    (event x : String) (xs : List String)
    → All IsName (x ∷ xs)
    → (split (join (x ∷ xs)) ≡ x ∷ xs) × (wants event (joined (x ∷ xs)) ≡ elem_text event (x ∷ xs))
wants-joined event x xs h =
    let back = split-join x xs (names_plain (x ∷ xs) h) in
    let same = strip_all-names (x ∷ xs) h in
    let full = join-not_empty x xs h.0.2 in (back, rw (full, back, same) refl)
