-- ===== src/Watcher/Merge.antt =====
-- What becomes of a message that bridge/watcher.py puts into its buffer, where copies of it are.
use pdd_bridge_agent.Prelude.{
  ◌<◌, true, str_eq, ◌⊎◌, ◌≢◌, ℕ, ◌+◌, ◌≤◌, Option, none, some, String, if◌then◌else◌, ◌≡◌,
}
use pdd_bridge_agent.Text.{is_blank}
use pdd_bridge_agent.Dict
use pdd_bridge_agent.Dict.{Dict}
use pdd_bridge_agent.Intake.Cover.{Has}
use pdd_bridge_agent.Dict.Laws
use pdd_bridge_agent.Watcher.Buffer.{Item, Buffer, same_seller_content, group_of}

-- The message with its times
abbrev pub timed : ℕ → Item → Item
timed now i = record i { first_seen = now; due = now + (if is_blank i.semantic then 150 else 600) }

-- What a group holds after a message came in for it: the message, where there was none; where there was one, the
-- better of the two, and the old one if they are as good, due when the old one was.
abbrev pub IsHeld : ℕ → Option Item → Item → Item → Type 0
IsHeld now none i p = p ≡ timed now i
IsHeld now (some old) i p =
    ((p ≡ record i { first_seen = old.first_seen; due = old.due }) × (old.quality < i.quality))
    ⊎ ((p ≡ old) × (i.quality ≤ old.quality))

-- The group that a message goes to is that of a pending message of the seller in its scope with the same content,
-- if there is one, and otherwise its own.
abbrev pub IsGroup : Item → Dict Item → String → Type 0
IsGroup i pending group =
    (group ≡ group_of i)
    ⊎ ((p : Item) × Has (λ e. e ≡ (group, p)) pending
        × (str_eq p.scope i.scope ≡ true)
        × (same_seller_content p.content i.content ≡ true))

-- The group has what it should, every other group what it had.
abbrev pub IsPending : ℕ → Option Item → String → Item → Buffer → Buffer → Type 0
IsPending now old group i b b' =
    ((p : Item) × (Dict.get b'.pending group ≡ some p) × IsHeld now old i p)
    × ((k : String) → group ≢ k → Dict.get b'.pending k ≡ Dict.get b.pending k)
