-- ===== src/Server/Tests.antt =====
-- A server with one client that subscribes, waits and leaves.
use g_plat.Prelude.{◌+◌, ◌≡◌, refl, true, none, some, List, [], ◌∷◌, ◌++◌, arith, ◌==◌}
use g_plat.Subscribe.{Tag, attach, without, get_subscriber}
use g_plat.Server.Sample.{start}
use g_plat.Server.Leaving.{Tracks, left-silent}
use g_plat.Server.{Server}
use g_plat.Server.Handle.{handle_subscribe, disconnect}
use g_plat.Server.Posts.{events_for, IsOrderly}
use g_plat.Server.Steps.{
  Step, run, made, made_all, notify_plc, subscribe, post_wait, notify, notify_timer, expired, left,
}
use g_plat.Server.Delivery.{run-events}
use g_plat.Server.Timers.{pending}
use g_plat.Server.Delays.{IsTimed}
use g_plat.Server.Delayed.{delayed_all, handed_all}

start-IsOrderly : IsOrderly start
start-IsOrderly = record { own = λ c. refl; waiting = λ c e. refl; limited = λ c e. e; hands = tt }

abbrev tag : Tag
tag = 84 ∷ 49 ∷ []

abbrev day : List Step
day =
    subscribe 7 tag [] 1 0
    ∷ subscribe 7 tag (68 ∷ []) 2 100
    ∷ notify tag (5 ∷ [])
    ∷ post_wait 7 none
    ∷ post_wait 7 (some 50)
    ∷ notify tag (6 ∷ [])
    ∷ expired 1
    ∷ left 7 true
    ∷ []

start-IsTimed : IsTimed start
start-IsTimed = record { below = tt; apart = tt; limits = λ c id e. cc e }

run-events_example :
    (events_for (run start day) 7 ≡ events_for start 7 ++ made_all start day 7)
    × IsOrderly (run start day)
    × IsTimed (run start day)
    × (pending (λ m. m.conn == 7) (run start day).timers + handed_all (λ m. m.conn == 7) start day
        ≡ pending (λ m. m.conn == 7) start.timers + delayed_all (λ m. m.conn == 7) start day)
run-events_example = run-events (λ m. m.conn == 7) start day 7 start-IsOrderly start-IsTimed

-- With the client 7 subscribed to the tag.
abbrev subscribed : Server
subscribed = run start (subscribe 7 tag [] 1 0 ∷ [])

subscribed-Tracks : Tracks subscribed 7
unfolding handle_subscribe attach
subscribed-Tracks = record { tags = λ k e. ground (arith, e); plc_tags = λ k e. cc e }

left-silent_example :
    let s' = disconnect subscribed 7 true in
    (made s' (notify tag []) 7 ≡ [])
    × (made s' (notify_timer tag []) 7 ≡ [])
    × (made s' (notify_plc tag []) 7 ≡ [])
    × (get_subscriber s'.subscriptions tag
        ≡ without 7 (get_subscriber subscribed.subscriptions tag))
left-silent_example = left-silent subscribed 7 true tag [] subscribed-Tracks

-- The client waits, gets an event, waits again and runs out of time.
abbrev waits : List Step
waits =
    subscribe 7 tag [] 1 0
    ∷ post_wait 7 none
    ∷ notify tag (5 ∷ [])
    ∷ post_wait 7 (some 50)
    ∷ expired 1
    ∷ []
