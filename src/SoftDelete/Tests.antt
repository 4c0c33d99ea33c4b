-- ===== src/SoftDelete/Tests.antt =====
-- The theorem on core/database/soft-delete.middleware.ts at one read and one deletion.
use mathplat.Common.{◌≡◌, refl, some, none, [], ◌∷◌}
use mathplat.Common.Outcome.{ok}
use mathplat.Common.StrSet
use mathplat.Common.Dict
use mathplat.SoftDelete.{
  Params, Args, count, delete, update, null, time, given, is_read, live_only, rewrite,
}
use mathplat.SoftDelete.Rewriting.{Rewritten, rewrite-Rewritten}

abbrev one : Args
one = record { where_ = some (("id", given "p1") ∷ []); data_ = none; rest = [] }

abbrev deletion : Params
deletion = record { model = some "Problem"; action = delete; args = some one }

abbrev marking : Params
marking = record {
  model = some "Problem";
  action = update;
  args = some (record one { data_ = some (("deletedAt", time 7) ∷ []) });
}

rewritten : rewrite 7 deletion ≡ ok marking
unfolding rewrite is_read StrSet.has
rewritten = refl

abbrev counting : Params
counting = record { model = some "Problem"; action = count; args = some one }

counted :
    rewrite 7 counting
    ≡ ok (record counting {
      args = some (record one { where_ = some (("id", given "p1") ∷ ("deletedAt", null) ∷ []) });
    })
unfolding rewrite is_read live_only StrSet.has Dict.get Dict.put
counted = refl

rewrite-Rewritten_example : Rewritten 7 deletion (rewrite 7 deletion)
rewrite-Rewritten_example = rewrite-Rewritten 7 deletion
