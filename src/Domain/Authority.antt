-- ===== src/Domain/Authority.antt =====
-- Which sources may grant authority: ragcore/src/ragcore/domain/authority.py.
use itsm_poc.Common.{Bool, true, false, Result, ok, err}

pub data UntrustedContent : Type 0 where
  model_output retrieved_content vendor_response chat_text realtime_message trigger_message :
      UntrustedContent

pub data AuthoritySource : Type 0 where
  gateway_derived_identity tenant_registry operation_catalogue durable_work_record
        authenticated_staff_verdict authenticated_end_user_consent :
      AuthoritySource

-- A value handed to the functions below: a member of either enumeration, or anything else.
pub data Source : Type 0 where
  authority : AuthoritySource → Source
  untrusted : UntrustedContent → Source
  unclassified : Source

pub data AuthorityError : Type 0 where
  type_error authority_assertion : AuthorityError

unfoldable pub may_grant_authority : Source → Result AuthorityError Bool
may_grant_authority (authority _) = ok true
may_grant_authority (untrusted _) = ok false
may_grant_authority unclassified = err type_error

unfoldable pub require_authority_source : Source → Result AuthorityError AuthoritySource
require_authority_source (authority s) = ok s
require_authority_source (untrusted _) = err authority_assertion
require_authority_source unclassified = err type_error
