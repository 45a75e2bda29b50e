-- ===== src/Win/Listener/Waiting.antt =====
-- ListenThread of win-pcbiounlock/src/CUnlockListener.cpp: that it ends, and what it does by then.
use Prim.Native.String.{String}
use pcbu_natives_old.Prelude.{◌≡◌, ◌⊎◌, false, Option, some, List, [], ◌∷◌, ◌++◌}
use pcbu_natives_old.Win.Listener.{
  ListenEffect, show_message, NetworkRound, KeyRound, Surroundings, unlock_part,
}

-- A round in which the flag is down.
abbrev pub NetworkStops : List NetworkRound → Type 0
NetworkStops [] = ⊥
NetworkStops (r ∷ rs) = (r.running ≡ false) ⊎ NetworkStops rs

abbrev pub KeyStops : List KeyRound → Type 0
KeyStops [] = ⊥
KeyStops (r ∷ rs) = (r.running ≡ false) ⊎ KeyStops rs

-- Only messages.
abbrev pub Messages : List ListenEffect → Type 0
Messages [] = Unit
Messages (show_message key ∷ es) = Messages es
Messages (_ ∷ es) = ⊥

-- Messages first, and then the handler, the tile and the provider, once each.
abbrev pub Unlocks : Surroundings → List ListenEffect → Type 0
Unlocks s trace = (front : List ListenEffect) × (trace ≡ front ++ unlock_part s) × Messages front

-- A part that ends, and unlocks.
abbrev pub Ends : Surroundings → Option (List ListenEffect) → Type 0
Ends s r = (trace : List ListenEffect) × (r ≡ some trace) × Unlocks s trace
