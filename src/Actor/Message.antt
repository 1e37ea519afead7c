-- ===== src/Actor/Message.antt =====
-- packages/actor-system/src/message.ts: what a queued message carries.
use mathlib.Core.Bool.{Bool, true, false}
use mathlib.Core.List.{List, map}
use tslib.Common.{ℕ, String, filter}

pub data AwaitPolicy : Type 0 where
  forget act commit : AwaitPolicy

pub record AwaiterMeta : Type 0 where
  pub message_id : String
  pub await_policy : AwaitPolicy
  pub await_timeout_millis : ℕ

-- `UserMessage<T> extends UserMessageItem<T>, AwaiterMeta`.
pub record UserMessage (T : Type 0) : Type 0 where
  pub meta : AwaiterMeta
  pub open meta use *
  pub item : T

unfoldable pub copy_awaiter_meta : {T : Type 0} → UserMessage T → AwaiterMeta
copy_awaiter_meta input = record {
  message_id = input.message_id;
  await_policy = input.await_policy;
  await_timeout_millis = input.await_timeout_millis;
}

abbrev pub is_forget : AwaitPolicy → Bool
is_forget AwaitPolicy.forget = true
is_forget _ = false

abbrev pub is_act : AwaitPolicy → Bool
is_act AwaitPolicy.act = true
is_act _ = false

abbrev pub is_commit : AwaitPolicy → Bool
is_commit AwaitPolicy.commit = true
is_commit _ = false

-- `metas.filter(…).map(({ messageId }) => messageId)`.
abbrev pub ids_where : (AwaitPolicy → Bool) → List AwaiterMeta → List String
ids_where p metas = map (λ m. m.message_id) (filter (λ m. p m.await_policy) metas)
