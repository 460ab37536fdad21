-- ===== src/Command/Client/Run/Numbered.antt =====
-- The numbers and the phrases of the commands that the client gives.
use public_trash.Base.{
  ℕ, ◌+◌, ◌-◌, ◌%◌, ◌≤◌, ◌≡◌, refl, if◌then◌else◌, List, [], ◌∷◌, length, get_elem?, some,
}
use public_trash.Command.Client.Run.{phrases, Position, Command, Log}

-- Commands that are numbered on from `i`, each with the phrase of its number; a command that was not
-- accepted is given again.
abbrev pub IsNumbered : ℕ → List Command → Type 0
IsNumbered i [] = Unit {0}
IsNumbered i (c ∷ cs) =
    (c.msg_index ≡ i)
    × (get_elem? phrases ((i - 1) % 23) ≡ some c.phrase)
    × IsNumbered (if c.accepted then i + 1 else i) cs

-- The number behind them.
abbrev pub number_after : ℕ → List Command → ℕ
number_after i [] = i
number_after i (c ∷ cs) = number_after (if c.accepted then i + 1 else i) cs

abbrev InStep : Position → Type 0
InStep p = (1 ≤ p.msg_index) × (p.phrase_index ≡ (p.msg_index - 1) % 23)

record IsLog (p : Position) (log : Log) : Type 0 where
  numbered : IsNumbered p.msg_index log.commands
  after : log.position.msg_index ≡ number_after p.msg_index log.commands
  in_step : InStep log.position

pub length-phrases : length phrases ≡ 23
unfolding phrases
length-phrases = refl
