-- ===== src/Server/Leaving.antt =====
-- A client that leaves: no notification is made for it any more.
use g_plat.Prelude.{
  ℕ, ◌≡◌, refl, sym, ap, ap₂, ◌∙◌, Bool, true, false, ◌||◌, Option, none, some, List, [], ◌∷◌,
  arith, ltb, if◌then◌else◌, same_text, same_text→eq, Bool-cases, length, take, inl, inr,
}
use g_plat.Subscribe.{
  Tag, EventNode, Subscriptions, detach, without, get_subscriber, detach_plc_io_server, is_server,
  get_plc_io_server,
}
use g_plat.Subscribe.Laws.{observes, without-stranger, without-twice, observes-without}
use g_plat.Server.{Server, Message, end_timeout}
use g_plat.Server.Handle.{
  detach_tags, detach_plc_tags, cancel_subscribe, disconnect, in_recy_connect_queue,
}
use g_plat.Server.Steps.{
  made, node_events, timer_events, plc_events, notify, notify_timer, notify_plc,
}

abbrev pub listed : Tag → List Tag → Bool
listed k [] = false
listed k (tag ∷ tags) = same_text k tag || listed k tags

detach-subjects :
    (s : Subscriptions) (tag : Tag) (c : ℕ) (k : Tag)
    → (detach s tag c).subjects k
      ≡ (if same_text k tag then without c (s.subjects k) else s.subjects k)
unfolding detach
detach-subjects s tag c k = elim (Bool-cases (same_text k tag)) [
  | inl e ↦ rw (e, same_text→eq k tag e) refl
  | inr e ↦ rw e refl
]

detach-plc_servers :
    (s : Subscriptions) (tag : Tag) (c : ℕ) → (detach s tag c).plc_servers ≡ s.plc_servers
unfolding detach
detach-plc_servers s tag c = refl

detach_tags-subjects :
    (s : Subscriptions) (c : ℕ) (tags : List Tag) (k : Tag)
    → (detach_tags s c tags).subjects k
      ≡ (if listed k tags then without c (s.subjects k) else s.subjects k)
detach_tags-subjects s c [] k = refl
detach_tags-subjects s c (tag ∷ tags) k = ground (
  arith,
  detach_tags-subjects (detach s tag c) c tags k,
  detach-subjects s tag c k,
  without-twice c (s.subjects k),
)

detach_tags-plc_servers :
    (s : Subscriptions) (c : ℕ) (tags : List Tag)
    → (detach_tags s c tags).plc_servers ≡ s.plc_servers
detach_tags-plc_servers s c [] = refl
detach_tags-plc_servers s c (tag ∷ tags) =
    detach_tags-plc_servers (detach s tag c) c tags ∙ detach-plc_servers s tag c

detach_plc-subjects :
    (s : Subscriptions) (tag : Tag) (c : ℕ) → (detach_plc_io_server s tag c).subjects ≡ s.subjects
unfolding detach_plc_io_server
detach_plc-subjects s tag c = ground arith

detach_plc_tags-subjects :
    (s : Subscriptions) (c : ℕ) (tags : List Tag) → (detach_plc_tags s c tags).subjects ≡ s.subjects
detach_plc_tags-subjects s c [] = refl
detach_plc_tags-subjects s c (tag ∷ tags) =
    detach_plc_tags-subjects (detach_plc_io_server s tag c) c tags ∙ detach_plc-subjects s tag c

none_if :
    (b : Bool) (o : Option ℕ) (c : ℕ)
    → is_server (if b then none else o) c ≡ (if b then false else is_server o c)
none_if true o c = refl
none_if false o c = refl

detach_plc-is_server :
    (s : Subscriptions) (tag : Tag) (c : ℕ) (k : Tag)
    → is_server ((detach_plc_io_server s tag c).plc_servers k) c
      ≡ (if same_text k tag then false else is_server (s.plc_servers k) c)
unfolding detach_plc_io_server
detach_plc-is_server s tag c k = elim (Bool-cases (is_server (s.plc_servers tag) c)) [
  | inl is ↦ rw is (none_if (same_text k tag) (s.plc_servers k) c)
  | inr isnt ↦ rw isnt (elim (Bool-cases (same_text k tag)) [
    | inl e ↦ rw (e, same_text→eq k tag e) isnt
    | inr e ↦ rw e refl
  ])
]

detach_plc_tags-is_server :
    (s : Subscriptions) (c : ℕ) (tags : List Tag) (k : Tag)
    → is_server ((detach_plc_tags s c tags).plc_servers k) c
      ≡ (if listed k tags then false else is_server (s.plc_servers k) c)
detach_plc_tags-is_server s c [] k = refl
detach_plc_tags-is_server s c (tag ∷ tags) k = ground (
  arith,
  detach_plc_tags-is_server (detach_plc_io_server s tag c) c tags k,
  detach_plc-is_server s tag c k,
)

node_events-stranger :
    (s : Server) (c : ℕ) (tag : Tag) (body : List ℕ) (nodes : List EventNode)
    → observes c nodes ≡ false
    → node_events s c tag body nodes ≡ []
node_events-stranger s c tag body [] h = refl
node_events-stranger s c tag body (node ∷ nodes) h =
    ground (arith, h, node_events-stranger s c tag body nodes)

timer_events-stranger :
    (s : Server) (c : ℕ) (itemname body : List ℕ) (nodes : List EventNode)
    → observes c nodes ≡ false
    → timer_events s c itemname body nodes ≡ []
timer_events-stranger s c itemname body [] h = refl
timer_events-stranger s c itemname body (node ∷ nodes) h =
    ground (arith, h, timer_events-stranger s c itemname body nodes)

plc_events-stranger :
    (s : Server) (c : ℕ) (tag : Tag) (body : List ℕ) (o : Option ℕ)
    → is_server o c ≡ false
    → plc_events s c tag body o ≡ []
plc_events-stranger s c tag body none h = refl
plc_events-stranger s c tag body (some server) h = rw h refl

end_timeout-subscriptions : (s : Server) (c : ℕ) → (end_timeout s c).subscriptions ≡ s.subscriptions
end_timeout-subscriptions s c = ground arith

recy-tags :
    (s : Server) (c : ℕ)
    → (((in_recy_connect_queue s c).conns c).list_tag ≡ (s.conns c).list_tag)
      × (((in_recy_connect_queue s c).conns c).list_plc_tag ≡ (s.conns c).list_plc_tag)
recy-tags s c = (ground arith, ground arith)

-- What is left of the subscriptions, through the connection's own lists of tags.
left-subscriptions :
    (s : Server) (c : ℕ) (closed : Bool)
    → (disconnect s c closed).subscriptions
      ≡ detach_plc_tags
          (detach_tags s.subscriptions c (s.conns c).list_tag)
          c
          (s.conns c).list_plc_tag
unfolding disconnect cancel_subscribe
left-subscriptions s c true =
    end_timeout-subscriptions (cancel_subscribe (in_recy_connect_queue s c) c) c
    ∙ ap₂ (λ tags plc_tags. detach_plc_tags (detach_tags s.subscriptions c tags) c plc_tags)
        (recy-tags s c).0 (recy-tags s c).1
left-subscriptions s c false = end_timeout-subscriptions (cancel_subscribe s c) c

-- The connection knows the tags that it is subscribed to.
pub record Tracks (s : Server) (c : ℕ) : Type 0 where
  pub tags :
      (tag : Tag)
      → observes c (get_subscriber s.subscriptions tag) ≡ true
      → listed tag (s.conns c).list_tag ≡ true
  pub plc_tags :
      (tag : Tag)
      → is_server (get_plc_io_server s.subscriptions tag) c ≡ true
      → listed tag (s.conns c).list_plc_tag ≡ true

false_of : (b : Bool) → (b ≡ true → false ≡ true) → b ≡ false
false_of true h = sym (h refl)
false_of false h = refl

module _ (s : Server) (c : ℕ) (closed : Bool) (tag : Tag) (t : Tracks s c) where
  left-subjects :
      get_subscriber (disconnect s c closed).subscriptions tag
      ≡ without c (get_subscriber s.subscriptions tag)
  left-subjects =
      let old : List EventNode = get_subscriber s.subscriptions tag in
      let kept = detach_tags s.subscriptions c (s.conns c).list_tag in
      ap (λ x. x.subjects tag) (left-subscriptions s c closed)
      ∙ ap (λ f. f tag) (detach_plc_tags-subjects kept c (s.conns c).list_plc_tag)
      ∙ detach_tags-subjects s.subscriptions c (s.conns c).list_tag tag
      ∙ elim (Bool-cases (listed tag (s.conns c).list_tag)) [
        | inl e ↦ rw e refl
        | inr e ↦
            rw e
              (sym (without-stranger c old (false_of (observes c old) (λ o. sym e ∙ t.tags tag o))))
      ]

  left-plc_server :
      is_server (get_plc_io_server (disconnect s c closed).subscriptions tag) c ≡ false
  left-plc_server =
      let kept = detach_tags s.subscriptions c (s.conns c).list_tag in
      ap (λ x. is_server (x.plc_servers tag) c) (left-subscriptions s c closed)
      ∙ detach_plc_tags-is_server kept c (s.conns c).list_plc_tag tag
      ∙ elim (Bool-cases (listed tag (s.conns c).list_plc_tag)) [
        | inl e ↦ rw e refl
        | inr e ↦ rw e (
            ap (λ f. is_server (f tag) c)
              (detach_tags-plc_servers s.subscriptions c (s.conns c).list_tag)
            ∙ false_of (is_server (s.subscriptions.plc_servers tag) c)
                (λ o. sym e ∙ t.plc_tags tag o))
      ]

if_nil : (b : Bool) (xs : List Message) → xs ≡ [] → (if b then [] else xs) ≡ []
if_nil true xs e = refl
if_nil false xs e = e

-- A client leaves whose connection knows the tags that it is subscribed to: then a notification of
-- any name, of a tag, of a timer or to the PLC server, makes no event for it, whatever the body; and
-- the other observers of the tag are those from before, in their order.
pub left-silent :
    (s : Server) (c : ℕ) (closed : Bool) (tag : Tag) (body : List ℕ)
    → Tracks s c
    → let s' = disconnect s c closed in
      (made s' (notify tag body) c ≡ [])
      × (made s' (notify_timer tag body) c ≡ [])
      × (made s' (notify_plc tag body) c ≡ [])
      × (get_subscriber s'.subscriptions tag ≡ without c (get_subscriber s.subscriptions tag))
left-silent s c closed tag body t =
    let s' : Server = disconnect s c closed in
    let nodes : List EventNode = get_subscriber s'.subscriptions tag in
    let gone : observes c nodes ≡ false =
      ap (observes c) (left-subjects s c closed tag t)
      ∙ observes-without c (get_subscriber s.subscriptions tag) in
    (
      if_nil (ltb 500 (length nodes)) (node_events s' c tag body nodes)
          (node_events-stranger s' c tag body nodes gone),
      timer_events-stranger s' c (take 39 tag) body nodes gone,
      plc_events-stranger s' c tag body (get_plc_io_server s'.subscriptions tag)
          (left-plc_server s c closed tag t),
      left-subjects s c closed tag t,
    )
