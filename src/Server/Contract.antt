-- ===== src/Server/Contract.antt =====
-- What the server promises of subscriptions, without its tables: who is connected, which channels
-- are available, and under which id a client has a channel.
pub mod Refines
pub mod Connections
pub mod Removal
pub mod Run
use foxglove_bridge_release.Base.{
  ℕ, ◌≡◌, ◌≢◌, ◌⊎◌, Bool, true, false, ◌&&◌, ◌||◌, Option, none, some, List, [], ◌∷◌, if◌then◌else◌,
}
use foxglove_bridge_release.Base.Eq.{◌==◌, id_eq}
use foxglove_bridge_release.Base.Map.{find, is_some, get_or}
use foxglove_bridge_release.Base.Exec.{Exec, skip, ◌>>=◌}
use foxglove_bridge_release.Json.{JsonLib}
use foxglove_bridge_release.Server.{Server, ChannelWithoutId, Network}
use foxglove_bridge_release.Server.Text.{subscribe_channel, unsubscribe_id}
use foxglove_bridge_release.Server.Connections.{handle_connection_opened, handle_connection_closed}
use foxglove_bridge_release.Server.Channels.{add_channel, remove_channel, subscription_of}

pub record View : Type 0 where
  pub connected : ℕ → Bool
  pub available : ℕ → Bool
  pub subscribed : ℕ → ℕ → Option ℕ

abbrev pub view : {B : Type 0} → Server B → View
view s = record {
  connected = λ h. is_some (find h s.clients);
  available = λ chan. is_some (find chan s.channels);
  subscribed = λ h chan. subscription_of h chan s;
}

-- The calls that bear on subscriptions: a client's id, the subscription id, the channel.
pub data Call : Type 0 where
  subscribe : ℕ → ℕ → ℕ → Call
  unsubscribe : ℕ → ℕ → Call
  add : ChannelWithoutId → Call
  remove : ℕ → Call
  open_connection : Network → ℕ → Call
  close_connection : ℕ → Call

abbrev pub SameConnections : View → View → Type 0
SameConnections a b = (h : ℕ) → b.connected h ≡ a.connected h

abbrev pub SameChannels : View → View → Type 0
SameChannels a b = (chan : ℕ) → b.available chan ≡ a.available chan

abbrev pub SameSubscriptions : View → View → Type 0
SameSubscriptions a b = (h chan : ℕ) → b.subscribed h chan ≡ a.subscribed h chan

-- the client uses the subscription id for some channel
abbrev pub IsTaken : View → ℕ → ℕ → Type 0
IsTaken a h sub = (chan : ℕ) × (a.subscribed h chan ≡ some sub)

-- A subscription is refused, or it is entered under its id, unless the client has the channel
-- already under another.
abbrev pub Subscribes : ℕ → ℕ → ℕ → View → View → Type 0
Subscribes h sub chan a b =
    (((a.connected h ≡ false) ⊎ ((a.available chan ≡ false) ⊎ IsTaken a h sub))
      × SameSubscriptions a b)
    ⊎ (((a.connected h ≡ true)
          × (a.available chan ≡ true)
          × ((c : ℕ) → a.subscribed h c ≢ some sub))
        × ((i c : ℕ)
            → b.subscribed i c ≡ (
                if (h == i) && (chan == c)
                then some (get_or sub (a.subscribed h chan))
                else a.subscribed i c)))

abbrev pub has_id : ℕ → Option ℕ → Bool
has_id sub none = false
has_id sub (some id) = id == sub

-- What a call may make of the view.
abbrev pub Allowed : Call → View → View → Type 0
Allowed (subscribe h sub chan) a b =
    SameConnections a b × SameChannels a b × Subscribes h sub chan a b
Allowed (unsubscribe h sub) a b =
    SameConnections a b
    × SameChannels a b
    × ((i c : ℕ)
        → b.subscribed i c
          ≡ (if (h == i) && has_id sub (a.subscribed i c) then none else a.subscribed i c))
Allowed (add base) a b =
    SameConnections a b
    × ((id : ℕ) × ((c : ℕ) → b.available c ≡ ((id == c) || a.available c)))
    × SameSubscriptions a b
Allowed (remove chan) a b =
    SameConnections a b
    × ((c : ℕ) → b.available c ≡ (if chan == c then false else a.available c))
    × ((i c : ℕ) → b.subscribed i c ≡ (if chan == c then none else a.subscribed i c))
Allowed (open_connection net h) a b =
    ((i : ℕ) → b.connected i ≡ (((h == i) && is_some (net h)) || a.connected i))
    × SameChannels a b
    × SameSubscriptions a b
Allowed (close_connection h) a b =
    ((i : ℕ) → b.connected i ≡ (if h == i then false else a.connected i))
    × SameChannels a b
    × ((i c : ℕ) → b.subscribed i c ≡ (if h == i then none else a.subscribed i c))

-- A sequence of calls, with the views between them.
abbrev pub AllowedRun : List Call → View → View → Type 0
AllowedRun [] a b = SameConnections a b × SameChannels a b × SameSubscriptions a b
AllowedRun (call ∷ calls) a b = (c : View) × (Allowed call a c × AllowedRun calls c b)

module _ {Json B : Type 0} (J : JsonLib Json) where
  unfoldable pub execute : Call → Exec (Server B) (Unit {0})
  execute (subscribe h sub chan) = subscribe_channel J h sub chan
  execute (unsubscribe h sub) = unsubscribe_id J h sub
  execute (add base) = add_channel base >>= λ id. skip
  execute (remove chan) = remove_channel J chan
  execute (open_connection net h) = handle_connection_opened J net h
  execute (close_connection h) = handle_connection_closed h

  -- What a call throws goes to its caller, and the state it left stays.
  unfoldable pub execute_all : List Call → Server B → Server B
  execute_all [] s = s
  execute_all (call ∷ calls) s = execute_all calls (execute call s).1
