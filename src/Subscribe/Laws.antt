-- ===== src/Subscribe/Laws.antt =====
-- CSubscribe: who is told of a tag after observers have come and gone.
use g_plat.Prelude.{
  ℕ, ◌≡◌, ◌≢◌, refl, Bool, false, ◌||◌, none, some, List, [], ◌∷◌, ◌++◌, arith, ◌==◌, if◌then◌else◌,
  same_text, same_text_refl,
}
use g_plat.Subscribe.{
  Tag, EventNode, Subscriptions, attach, detach, without, get_subscriber, attach_plc_io_server,
  detach_plc_io_server, get_plc_io_server,
}

-- The connection is among the observers.
abbrev pub observes : ℕ → List EventNode → Bool
observes c [] = false
observes c (node ∷ nodes) = node.subscriber == c || observes c nodes

pub without-append :
    (c : ℕ) (xs ys : List EventNode) → without c (xs ++ ys) ≡ without c xs ++ without c ys
without-append c [] ys = refl
without-append c (node ∷ xs) ys = ground (arith, without-append c xs ys)

pub without-twice : (c : ℕ) (xs : List EventNode) → without c (without c xs) ≡ without c xs
without-twice c [] = refl
without-twice c (node ∷ xs) = ground (arith, without-twice c xs)

pub observes-without : (c : ℕ) (xs : List EventNode) → observes c (without c xs) ≡ false
observes-without c [] = refl
observes-without c (node ∷ xs) = ground (arith, observes-without c xs)

pub without-stranger : (c : ℕ) (xs : List EventNode) → observes c xs ≡ false → without c xs ≡ xs
without-stranger c [] h = refl
without-stranger c (node ∷ xs) h = ground (arith, h, without-stranger c xs)

-- Attach puts the observer behind the others of its tag, and Detach of a connection `c` then takes
-- away exactly the nodes of `c`, in all places, and keeps the order of the others: what GetSubscriber
-- returns for a name `k` after both. The PLC servers are not touched.
pub attach-detach :
    (s : Subscriptions) (tag k : Tag) (observer : EventNode) (c : ℕ)
    → let s' = attach s tag observer in
      let s'' = detach s' tag c in
      (get_subscriber s' k
        ≡ (if same_text k tag then get_subscriber s tag ++ observer ∷ [] else get_subscriber s k))
      × (get_subscriber s'' k ≡ (
          if same_text k tag
          then without c (get_subscriber s tag)
            ++ (if observer.subscriber == c then [] else observer ∷ [])
          else get_subscriber s k))
      × (get_plc_io_server s'' k ≡ get_plc_io_server s k)
unfolding attach detach
attach-detach s tag k observer c = (
  refl,
  ground (arith, same_text_refl tag, without-append c (s.subjects tag) (observer ∷ [])),
  refl,
)

-- Of the PLC servers of a tag the last one that was attached counts: after `c` and then `c'` the
-- answer is `c'`; Detach of a connection other than `c'` leaves it, and Detach of `c'` leaves none.
-- The observers of the tags are not touched.
pub plc-last :
    (s : Subscriptions) (tag k : Tag) (c c' other : ℕ)
    → other ≢ c'
    → let s' = attach_plc_io_server (attach_plc_io_server s tag c) tag c' in
      (get_plc_io_server s' tag ≡ some c')
      × (get_plc_io_server (detach_plc_io_server s' tag other) tag ≡ some c')
      × (get_plc_io_server (detach_plc_io_server s' tag c') tag ≡ none)
      × (get_subscriber (detach_plc_io_server s' tag c') k ≡ get_subscriber s k)
unfolding attach_plc_io_server detach_plc_io_server
plc-last s tag k c c' other ne = (
  ground (arith, same_text_refl tag),
  ground (arith, same_text_refl tag, ne),
  ground (arith, same_text_refl tag),
  ground (arith, same_text_refl tag),
)
