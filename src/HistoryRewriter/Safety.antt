-- ===== src/HistoryRewriter/Safety.antt =====
-- When the history is rewritten, and with what.
use mathlib.Core.List.{cons≢nil}
use public_trash.Base.{
  ℕ, true, Bool-cases, Option-cases, inl, inr, ◌≡◌, ◌≢◌, ◌⊎◌, refl, List, [], ◌∷◌, All, none, some,
  Exception, Result, ok, raise, runtime_error, called_process_error, ◌||◌, if◌then◌else◌, length,
}
use public_trash.Base.Texts.{Text, codes, strip}
use public_trash.HistoryRewriter.{
  Call, Git, Script, next, return, fail, ◌>>=◌, run_git, require_git, is_empty, config_args,
  get_current_git_user, toplevel_args, ensure_repo, translate, rewrite_args, rewrite_history, main,
}

-- A call that only asks.
abbrev pub IsQuery : Call → Type 0
IsQuery call =
    (call.args ≡ toplevel_args)
    ⊎ ((call.args ≡ config_args (codes "user.name"))
        ⊎ (call.args ≡ config_args (codes "user.email")))

-- What `git` answered, without the white space around it.
abbrev pub IsAnswer : Git → List Text → Text → Text → Type 0
IsAnswer git args cwd text =
    (n : ℕ) × (raw : Text) × (git.answer n (record { args = args; cwd = cwd }) ≡ some raw)
    × (text ≡ strip raw)

abbrev pub IsUser : Git → Text → Text × Text → Type 0
IsUser git repo (name, email) =
    IsAnswer git (config_args (codes "user.name")) repo name
    × IsAnswer git (config_args (codes "user.email")) repo email
    × (name ≢ [])
    × (email ≢ [])

-- What a run comes to: it raises with nothing done but queries; or behind queries it calls
-- `filter-branch` once, in the top folder of the repository and for the user that `git` names,
-- neither part of it empty, whatever that call returns.
pub data Outcome (git : Git) (cwd : Text) : Result ℕ × List Call → Type 0 where
  refused :
      {problem : Exception} {calls : List Call}
      → All IsQuery calls
      → Outcome git cwd (raise problem, calls)
  rewritten :
      {r : Result ℕ} {calls : List Call} {toplevel name email : Text}
      → git.which ≡ true
      → IsAnswer git toplevel_args cwd toplevel
      → IsUser git toplevel (name, email)
      → All IsQuery calls
      → Outcome git cwd (r, record { args = rewrite_args name email; cwd = toplevel } ∷ calls)

-- A part of the script that only asks, and its value.
abbrev After : {A : Type 0} → (A → Type 0) → Result A × List Call → Type 0
After P (ok a, calls) = P a × All IsQuery calls
After P (raise problem, calls) = All IsQuery calls

module _ {A B : Type 0} where
  next-After :
      (P : A → Type 0) (Q : B → Type 0) (f : A → Script B) (r : Result A × List Call)
      → After P r
      → ((a : A) → P a → (calls : List Call) → All IsQuery calls → After Q (f a calls))
      → After Q (next f r)
  next-After P Q f (ok a, calls) h k = k a h.0 calls h.1
  next-After P Q f (raise problem, calls) h k = h

next-Outcome :
    (git : Git) (cwd : Text) {A : Type 0} (P : A → Type 0) (f : A → Script ℕ)
    (r : Result A × List Call)
    → After P r
    → ((a : A) → P a → (calls : List Call) → All IsQuery calls → Outcome git cwd (f a calls))
    → Outcome git cwd (next f r)
next-Outcome git cwd P f (ok a, calls) h k = k a h.0 calls h.1
next-Outcome git cwd P f (raise problem, calls) h k = refused h

run_git-After :
    (git : Git) (args : List Text) (cwd : Text) (calls : List Call)
    → IsQuery (record { args = args; cwd = cwd })
    → All IsQuery calls
    → After (IsAnswer git args cwd) (run_git git args cwd calls)
unfolding run_git
run_git-After git args cwd calls query h =
    elim (Option-cases (git.answer (length calls) (record { args = args; cwd = cwd }))) [
      | inl failed ↦ rw failed (query, h)
      | inr (raw, e) ↦ rw e ((length calls, raw, e, refl), (query, h))
    ]

require_git-After :
    (git : Git) (calls : List Call)
    → All IsQuery calls
    → After (λ _. git.which ≡ true) (require_git git calls)
unfolding require_git
require_git-After git calls h = elim (Bool-cases git.which) [
  | inl there ↦ rw there (refl, h)
  | inr missing ↦ rw missing h
]

translate-After :
    (P : Text → Type 0) (r : Result Text × List Call)
    → After P r
    → After (λ _. Unit {0}) (translate r)
translate-After P (ok text, calls) h = (tt, h.1)
translate-After P (raise problem, calls) h = h

if_named :
    (git : Git) (repo name email : Text) (calls : List Call)
    → IsAnswer git (config_args (codes "user.name")) repo name
    → IsAnswer git (config_args (codes "user.email")) repo email
    → All IsQuery calls
    → After (IsUser git repo) (
        (if is_empty name || is_empty email then fail runtime_error else return (name, email))
          calls)
if_named git repo [] email calls named mailed h = h
if_named git repo (c ∷ cs) [] calls named mailed h = h
if_named git repo (c ∷ cs) (d ∷ ds) calls named mailed h = ((named, mailed, cons≢nil, cons≢nil), h)

get_current_git_user-After :
    (git : Git) (repo : Text) (calls : List Call)
    → All IsQuery calls
    → After (IsUser git repo) (get_current_git_user git repo calls)
unfolding get_current_git_user
get_current_git_user-After git repo calls h =
    next-After (IsAnswer git (config_args (codes "user.name")) repo) (IsUser git repo) _ _
      (run_git-After git (config_args (codes "user.name")) repo calls (inr (inl refl)) h)
      (λ name named later hs.
        next-After (IsAnswer git (config_args (codes "user.email")) repo) (IsUser git repo) _ _
          (run_git-After git (config_args (codes "user.email")) repo later (inr (inr refl)) hs)
          (λ email mailed last hl. if_named git repo name email last named mailed hl))

rewrite-Outcome :
    (git : Git) (cwd toplevel name email : Text) (calls : List Call)
    → git.which ≡ true
    → IsAnswer git toplevel_args cwd toplevel
    → IsUser git toplevel (name, email)
    → All IsQuery calls
    → Outcome git cwd ((rewrite_history git toplevel name email >>= λ _. return {A = ℕ} 0) calls)
unfolding rewrite_history
rewrite-Outcome git cwd toplevel name email calls there top user h =
    let call : Call = record { args = rewrite_args name email; cwd = toplevel } in
    elim (Option-cases (git.answer (length calls) call)) [
      | inl failed ↦ rw failed (rewritten there top user h)
      | inr (text, e) ↦ rw e (rewritten there top user h)
    ]

-- Whatever `git` answers, `main` either raises having only asked, or rewrites once, behind its
-- queries, for the user that `git` names.
pub main-Outcome : (git : Git) (cwd : Text) → Outcome git cwd (main git cwd [])
unfolding main
main-Outcome git cwd =
    next-Outcome git cwd (λ _. git.which ≡ true) _ _ (require_git-After git [] tt)
      (λ _ there calls h.
        next-Outcome git cwd (λ _. Unit {0}) _ _
          (translate-After (IsAnswer git toplevel_args cwd) (run_git git toplevel_args cwd calls)
            (run_git-After git toplevel_args cwd calls (inl refl) h))
          (λ _ _ later hs.
            next-Outcome git cwd (IsAnswer git toplevel_args cwd) _ _
              (run_git-After git toplevel_args cwd later (inl refl) hs)
              (λ toplevel top last hl.
                next-Outcome git cwd (IsUser git toplevel) _ _
                  (get_current_git_user-After git toplevel last hl)
                  (λ user is_user all ha.
                    rewrite-Outcome git cwd toplevel user.0 user.1 all there top is_user ha))))

-- Where the name is not set at all, so that `git config --get` fails, the script ends with the
-- exception of that call, not with the message on how to set it.
main-unset :
    (git : Git) (cwd first second : Text)
    → git.which ≡ true
    → git.answer 0 (record { args = toplevel_args; cwd = cwd }) ≡ some first
    → git.answer 1 (record { args = toplevel_args; cwd = cwd }) ≡ some second
    → git.answer 2 (record { args = config_args (codes "user.name"); cwd = strip second }) ≡ none
    → (main git cwd []).0 ≡ raise called_process_error
unfolding main require_git ensure_repo run_git get_current_git_user
main-unset git cwd first second there top again unset = rw (there, top, again, unset) refl
