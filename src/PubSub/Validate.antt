-- ===== src/PubSub/Validate.antt =====
-- src/loopyPubSub.c: the checks of topics and patterns, which are lists of character codes, without
-- the NUL at the end; and the names of the enumerations.
use Prim.Native.String.{String}
use mathlib.Core.Bool.{true≢false}
use loopy.Prelude.{
  ℕ, ◌≡◌, ◌≢◌, ◌↔◌, refl, sym, ap, Bool, true, false, ◌||◌, List, [], ◌∷◌, ◌++◌, arith, ◌==◌,
  if◌then◌else◌,
}
use loopy.PubSub.{
  DeliveryMode, deliver_sync, deliver_async, deliver_queue, AckMode, ack_none, ack_auto, ack_manual,
  Event, subscribed, unsubscribed, queue_full, queue_empty, failed, HubConfig,
}

-- The loop of `loopyValidateTopic`.
unfoldable pub no_wildcards : HubConfig → List ℕ → Bool
no_wildcards c [] = true
no_wildcards c (x ∷ xs) =
    if (x == c.star_wildcard) || (x == c.hash_wildcard) then false else no_wildcards c xs

unfoldable pub validate_topic : HubConfig → List ℕ → Bool
unfolding no_wildcards
validate_topic c [] = false
validate_topic c (x ∷ xs) = no_wildcards c (x ∷ xs)

-- what `hash[1]` may be: the end of the pattern, or a separator
abbrev ends_segment : HubConfig → List ℕ → Bool
ends_segment c [] = true
ends_segment c (y ∷ ys) = y == c.separator

-- `strchr`, for a wildcard that is not NUL, and the test of what follows the character that it finds
unfoldable pub first_hash : HubConfig → List ℕ → Bool
first_hash c [] = true
first_hash c (x ∷ xs) = if x == c.hash_wildcard then ends_segment c xs else first_hash c xs

unfoldable pub validate_pattern : HubConfig → List ℕ → Bool
unfolding first_hash
validate_pattern c [] = false
validate_pattern c (x ∷ xs) = first_hash c (x ∷ xs)

-- `loopySubscriptionEventName`
unfoldable pub event_name : Event → String
event_name subscribed = "SUBSCRIBED"
event_name unsubscribed = "UNSUBSCRIBED"
event_name queue_full = "QUEUE_FULL"
event_name queue_empty = "QUEUE_EMPTY"
event_name failed = "ERROR"

-- `loopyDeliveryModeName`
unfoldable pub delivery_mode_name : DeliveryMode → String
delivery_mode_name deliver_sync = "SYNC"
delivery_mode_name deliver_async = "ASYNC"
delivery_mode_name deliver_queue = "QUEUE"

-- `loopyAckModeName`
unfoldable pub ack_mode_name : AckMode → String
ack_mode_name ack_none = "NONE"
ack_mode_name ack_auto = "AUTO"
ack_mode_name ack_manual = "MANUAL"

-- Every character of a string is no wildcard.
abbrev NoWildcards : HubConfig → List ℕ → Type 0
NoWildcards c w =
    (before : List ℕ) (x : ℕ) (after : List ℕ)
    → w ≡ before ++ (x ∷ after)
    → (x ≢ c.star_wildcard) × (x ≢ c.hash_wildcard)

not_empty : (before : List ℕ) (x : ℕ) (after : List ℕ) → [] ≢ before ++ (x ∷ after)
not_empty [] x after e = cc
not_empty (y ∷ before) x after e = cc

head_or_rest :
    (c : HubConfig) (y : ℕ) (w : List ℕ)
    → ((y == c.star_wildcard) || (y == c.hash_wildcard)) ≡ false
    → NoWildcards c w
    → NoWildcards c (y ∷ w)
head_or_rest c y w plain rest [] x after e = let same : y ≡ x = cc in (ground arith, ground arith)
head_or_rest c y w plain rest (z ∷ before) x after e =
    let tail : w ≡ before ++ (x ∷ after) = cc in rest before x after tail

no_wildcards-NoWildcards : (c : HubConfig) (w : List ℕ) → no_wildcards c w ≡ true → NoWildcards c w
unfolding no_wildcards
no_wildcards-NoWildcards c [] passed before x after e = absurd (not_empty before x after e)
no_wildcards-NoWildcards c (y ∷ w) passed before x after e =
    let plain : ((y == c.star_wildcard) || (y == c.hash_wildcard)) ≡ false = ground arith in
    head_or_rest c y w (ground arith) (no_wildcards-NoWildcards c w (rw plain at passed)) before x
      after e

no_wildcards_complete : (c : HubConfig) (w : List ℕ) → NoWildcards c w → no_wildcards c w ≡ true
unfolding no_wildcards
no_wildcards_complete c [] h = refl
no_wildcards_complete c (y ∷ w) h =
    let (star, hash) = h [] y w refl in
    let rest =
      no_wildcards_complete c w (λ before x after e. h (y ∷ before) x after (ap (◌∷◌ y) e)) in
    ground arith

-- `loopyValidateTopic` accepts just the strings that are not empty and have no wildcard.
pub validate_topic_iff :
    (c : HubConfig) (w : List ℕ) → (validate_topic c w ≡ true) ↔ ((w ≢ []) × NoWildcards c w)
unfolding validate_topic
validate_topic_iff c [] =
    (λ passed. absurd (true≢false (sym passed)), λ (some_char, plain). absurd (some_char refl))
validate_topic_iff c (y ∷ w) = (
  λ passed. (λ e. cc, no_wildcards-NoWildcards c (y ∷ w) passed),
  λ (some_char, plain). no_wildcards_complete c (y ∷ w) plain,
)
