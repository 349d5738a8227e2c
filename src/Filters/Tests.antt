-- ===== src/Filters/Tests.antt =====
-- The message filter on concrete messages.
use disgord.Base.{◌≡◌, refl, true, none, some, [], ◌∷◌}
use disgord.Filters.Messages.{
  MsgFilter, FilteredMessage, message_create, strip_prefix, message_has_prefix, get_msg, any_prefix,
  trim_space, trim_left, trim_right, strip_content, with_msg, message_is_bot,
}
use disgord.Names.Validators.{has_prefix}

-- the prefix "!"
abbrev filter : MsgFilter
filter = record { bot_id = 1; prefix = 33 ∷ []; permissions = 0; either_permissions = 0 }

-- "  !hi"
abbrev message : FilteredMessage
message = record {
  author = none;
  webhook_id = 0;
  guild_id = 7;
  content = 32 ∷ 32 ∷ 33 ∷ 104 ∷ 105 ∷ [];
}

-- Behind a tab, the tab is cut off in place of the prefix.
tab_test :
    strip_prefix filter (message_create (record message { content = 9 ∷ 33 ∷ 104 ∷ 105 ∷ [] }))
    ≡ some (some (message_create (record message { content = 33 ∷ 104 ∷ 105 ∷ [] })))
unfolding strip_prefix message_has_prefix get_msg any_prefix trim_space trim_left trim_right
    strip_content with_msg has_prefix
tab_test = refl

-- Without an author, a message is taken as a bot's and as no bot's.
no_author : message_is_bot (message_create message) true ≡ some (message_create message)
unfolding message_is_bot get_msg
no_author = refl
