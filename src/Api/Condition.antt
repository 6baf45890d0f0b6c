-- ===== src/Api/Condition.antt =====
-- Status conditions: metav1.Condition without its timestamp, which no code reads, and the way that
-- `SetWaiting` and `UpdateStatus` of every stage resource replace a condition by its type.
use unstructured_data_contro.Prelude.{
  Text, codes, Option, none, some, List, [], ◌∷◌, ◌++◌, ◌==◌, nat_eq, list_eq, if◌then◌else◌, Error,
  ◌≡◌, arith,
}

pub data ConditionStatus : Type 0 where
  condition_true condition_false condition_unknown : ConditionStatus

pub record Condition : Type 0 where
  pub type : Text
  pub status : ConditionStatus
  pub message : Text
  pub reason : Text

-- The first condition of the same type is replaced, and else the condition is added at the end.
unfoldable pub put_condition : Condition → List Condition → List Condition
put_condition c [] = c ∷ []
put_condition c (d ∷ l) = if d.type == c.type then c ∷ l else d ∷ put_condition c l

-- The first condition of a type.
unfoldable pub find_condition : Text → List Condition → Option Condition
find_condition t [] = none
find_condition t (d ∷ l) = if d.type == t then some d else find_condition t l

-- After a condition is put, it is the one that is found under its type, and the others are found
-- as before.
pub find_condition-put_condition :
    (t : Text) (c : Condition) (l : List Condition)
    → find_condition t (put_condition c l) ≡ (if c.type == t then some c else find_condition t l)
unfolding put_condition find_condition
find_condition-put_condition t c [] = ground arith
find_condition-put_condition t c (d ∷ l) = ground (arith, find_condition-put_condition t c l)

abbrev pub waiting : Text → Text → Condition
waiting type message = record {
  type = type;
  status = condition_unknown;
  message = message;
  reason = codes "Waiting";
}

-- `UpdateStatus(message, err)`: the condition that it puts.
abbrev pub outcome_condition : Text → Text → Option Error → Condition
outcome_condition type message none = record {
  type = type;
  status = condition_true;
  message = message;
  reason = codes "SuccessfullyReconciled";
}
outcome_condition type message (some e) = record {
  type = type;
  status = condition_false;
  message = message ++ codes ", error: " ++ e.message;
  reason = codes "ReconcileFailed";
}

-- LastAppliedGeneration, which only a success moves.
abbrev pub applied_generation {ℓ} : {A : Type ℓ} → A → A → Option Error → A
applied_generation generation last none = generation
applied_generation generation last (some e) = last
