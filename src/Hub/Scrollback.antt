-- ===== src/Hub/Scrollback.antt =====
-- crates/telepair-gateway/src/session_hub.rs: the ring of recent output (`Scrollback`), and the
-- bounded history of chat messages.
use telepair.Base.{
  ℕ, ◌+◌, ◌-◌, ◌*◌, ◌≤◌, ◌<◌, ◌≡◌, refl, ◌∙◌, sym, List, [], ◌∷◌, ◌++◌, if◌then◌else◌, ltb, length,
  All, arith, ◌^◌, ap,
}
use Prim.Native.Nat.{min}
use mathlib.Core.Path.{ap₂}
use mathlib.Core.List.{append_assoc, append-nil}

abbrev pub scrollback_cap_bytes : ℕ
scrollback_cap_bytes = 64 * 1024

-- A chunk of bytes.
abbrev pub Bytes : Type 0
Bytes = List ℕ

pub record Scrollback : Type 0 where
  pub chunks : List Bytes
  pub total : ℕ

unfoldable pub empty_scrollback : Scrollback
empty_scrollback = record { chunks = []; total = 0 }

-- The `while` of `push`: the oldest chunks go until the rest fits.
unfoldable pub trim : List Bytes → ℕ → Scrollback
trim [] total = record { chunks = []; total = total }
trim (front ∷ rest) total =
    let shorter = trim rest (total - length front) in
    if ltb scrollback_cap_bytes total
    then shorter
    else record { chunks = front ∷ rest; total = total }

-- `usize::saturating_add`
abbrev pub saturating_add : ℕ → ℕ → ℕ
saturating_add a b = min (a + b) (2 ^ 64 - 1)

unfoldable pub push : Scrollback → Bytes → Scrollback
push s bytes = trim (s.chunks ++ bytes ∷ []) (saturating_add s.total (length bytes))

abbrev pub size : List Bytes → ℕ
size [] = 0
size (c ∷ cs) = length c + size cs

size-append : (xs ys : List Bytes) → size (xs ++ ys) ≡ size xs + size ys
size-append [] ys = omega arith
size-append (x ∷ xs) ys = omega (arith, size-append xs ys)

-- The counter is the number of bytes held, and within the cap.
pub record IsBounded (s : Scrollback) : Type 0 where
  pub counted : s.total ≡ size s.chunks
  pub capped : s.total ≤ scrollback_cap_bytes

trim-IsBounded : (cs : List Bytes) (total : ℕ) → total ≡ size cs → IsBounded (trim cs total)
unfolding trim
trim-IsBounded [] total h = record { counted = h; capped = omega arith }
trim-IsBounded (c ∷ cs) total h = ground (arith, trim-IsBounded cs (total - length c))

-- What was dropped, oldest first.
unfoldable pub dropped : List Bytes → ℕ → List Bytes
dropped [] total = []
dropped (front ∷ rest) total =
    let more = dropped rest (total - length front) in
    if ltb scrollback_cap_bytes total then front ∷ more else []

trim-suffix : (cs : List Bytes) (total : ℕ) → cs ≡ dropped cs total ++ (trim cs total).chunks
unfolding trim dropped
trim-suffix [] total = refl
trim-suffix (c ∷ cs) total = ground (arith, trim-suffix cs (total - length c))

trim_fits :
    (cs : List Bytes) (total : ℕ) → total ≤ scrollback_cap_bytes → (trim cs total).chunks ≡ cs
unfolding trim
trim_fits [] total h = refl
trim_fits (c ∷ cs) total h = ground arith

pub push-IsBounded :
    (s : Scrollback) (bytes : Bytes)
    → IsBounded s
    → length bytes < 2 ^ 63
    → IsBounded (push s bytes)
unfolding push
push-IsBounded s bytes b small =
    trim-IsBounded (s.chunks ++ bytes ∷ []) _
      (omega (arith, size-append s.chunks (bytes ∷ []), b.counted, b.capped))

-- The PTY loop's output, pushed chunk by chunk.
unfoldable pub push_all : Scrollback → List Bytes → Scrollback
push_all s [] = s
push_all s (c ∷ cs) = push_all (push s c) cs

dropped_fits : (cs : List Bytes) (total : ℕ) → total ≤ scrollback_cap_bytes → dropped cs total ≡ []
unfolding dropped
dropped_fits [] total h = refl
dropped_fits (c ∷ cs) total h = ground arith

trim_total-le : (cs : List Bytes) (total : ℕ) → (trim cs total).total ≤ total
unfolding trim
trim_total-le [] total = omega arith
trim_total-le (c ∷ cs) total = ground (arith, trim_total-le cs (total - length c))

pub push-suffix :
    (s : Scrollback) (c : Bytes)
    → s.chunks ++ c ∷ []
      ≡ dropped (s.chunks ++ c ∷ []) (saturating_add s.total (length c)) ++ (push s c).chunks
unfolding push
push-suffix s c = trim-suffix (s.chunks ++ c ∷ []) (saturating_add s.total (length c))

push_total-le : (s : Scrollback) (c : Bytes) → (push s c).total ≤ s.total + length c
unfolding push
push_total-le s c =
    omega (arith, trim_total-le (s.chunks ++ c ∷ []) (saturating_add s.total (length c)))

abbrev pub Small : Bytes → Type 0
Small c = length c < 2 ^ 63

-- From a ring within its cap, and for chunks shorter than 2^63 bytes: after any output the ring
-- holds the latest chunks of what it held and of that output, whole and in order, with its byte
-- counter right and at most the cap; and all of them if they fit.
pub push_all-suffix :
    (s : Scrollback) (cs : List Bytes)
    → IsBounded s
    → All Small cs
    → (d : List Bytes) × (s.chunks ++ cs ≡ d ++ (push_all s cs).chunks)
      × (IsBounded (push_all s cs))
      × (s.total + size cs ≤ scrollback_cap_bytes → d ≡ [])
unfolding push_all
push_all-suffix s [] b small = ([], append-nil s.chunks, b, λ h. refl)
push_all-suffix s (c ∷ cs) b small =
    let total = saturating_add s.total (length c) in
    let gone = dropped (s.chunks ++ c ∷ []) total in
    let (d, e, bounded, keeps) =
      push_all-suffix (push s c) cs (push-IsBounded s c b small.0) small.1 in
    (
      gone ++ d,
      sym (append_assoc s.chunks (c ∷ []) cs)
          ∙ ap (λ x. x ++ cs) (push-suffix s c)
          ∙ append_assoc gone (push s c).chunks cs
          ∙ ap (◌++◌ gone) e
          ∙ sym (append_assoc gone d (push_all (push s c) cs).chunks),
      bounded,
      λ h.
          ap₂ ◌++◌ (dropped_fits (s.chunks ++ c ∷ []) total (omega arith))
            (keeps (omega (arith, push_total-le s c))),
    )
