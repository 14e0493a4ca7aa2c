-- ===== src/Accounts/Links.antt =====
-- internal/app/identity/service.go: BindExternalIdentity, UnbindExternalIdentity and
-- ExternalIdentityLinksForUser.
use topbase.Prelude.{
  Bool, not, ◌&&◌, ◌||◌, List, [], ◌∷◌, ◌++◌, Option, none, some, if◌then◌else◌, any, keep,
  is_empty, Result, ok, err,
}
use topbase.Text.{Text, text_eq, trim_space}
use topbase.Accounts.{
  Account, ExternalIdentityLink, Directory, Error, Write, not_found, link_incomplete,
  linked_to_another, user_by_id,
}
use topbase.Accounts.Sessions.{link_of}

unfoldable pub trimmed : ExternalIdentityLink → ExternalIdentityLink
trimmed link = record {
  provider_id = trim_space link.provider_id;
  subject = trim_space link.subject;
  user_id = trim_space link.user_id;
}

-- Behind the search for a link of the same external account.
unfoldable pub bind_beside :
    ExternalIdentityLink → Directory → Option ExternalIdentityLink → Result Error Directory
bind_beside link d none = ok (record d { links = d.links ++ link ∷ [] })
bind_beside link d (some other) =
    if text_eq other.user_id link.user_id then ok d else err linked_to_another

unfoldable pub bind_member :
    ExternalIdentityLink → Directory → Option Account → Result Error Directory
bind_member link d none = err not_found
bind_member link d (some user) = bind_beside link d (link_of link.provider_id link.subject d.links)

unfoldable pub bind_trimmed : ExternalIdentityLink → Write
bind_trimmed link d =
    if is_empty link.provider_id || is_empty link.subject || is_empty link.user_id
    then err link_incomplete
    else bind_member link d (user_by_id link.user_id d)

unfoldable pub bind_external_identity : ExternalIdentityLink → Write
bind_external_identity link = bind_trimmed (trimmed link)

-- The links of a member with a provider.
unfoldable pub links_member : Text → Text → ExternalIdentityLink → Bool
links_member user provider link = text_eq link.user_id user && text_eq link.provider_id provider

unfoldable pub unbind_external_identity : Text → Text → Write
unbind_external_identity user provider d =
    if any (links_member user provider) d.links
    then ok (record d { links = keep (λ link. not (links_member user provider link)) d.links })
    else err not_found

unfoldable pub links_for_user : Text → Directory → List ExternalIdentityLink
links_for_user user d = keep (λ link. text_eq link.user_id user) d.links
