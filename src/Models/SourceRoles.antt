-- ===== src/Models/SourceRoles.antt =====
-- src/zion_terminal/models/source_roles.py: which source is authoritative for which domain.
use zion_terminal.Base.{String, str_eq, if◌then◌else◌}

pub data SourceRole : Type 0 where
  primary verification fallback convenience : SourceRole

pub data DataDomain : Type 0 where
  financial_statements filing_content company_facts market_data macro_data company_info : DataDomain

sec_role : DataDomain → SourceRole
sec_role financial_statements = primary
sec_role filing_content = primary
sec_role company_facts = primary
sec_role company_info = verification
sec_role _ = fallback

yahoo_role : DataDomain → SourceRole
yahoo_role market_data = primary
yahoo_role financial_statements = verification
yahoo_role company_info = convenience
yahoo_role _ = fallback

fred_role : DataDomain → SourceRole
fred_role macro_data = primary
fred_role _ = fallback

-- `SOURCE_ROLES.get(source, {}).get(domain, FALLBACK)`
unfoldable pub get_source_role : String → DataDomain → SourceRole
unfolding sec_role yahoo_role fred_role
get_source_role source domain =
    if str_eq source "sec_edgar"
    then sec_role domain
    else if str_eq source "yahoo_finance"
    then yahoo_role domain
    else if str_eq source "fred"
    then fred_role domain
    else fallback
