-- ===== src/Models/People.antt =====
-- models.py: the owner of a device, as Entra ID knows them and as ServiceNow does. What comes from
-- JSON is kept as it is: the code does not check that it is a text.
use mac_service_now_cmdb.Base.{String, [], ◌∷◌}
use mac_service_now_cmdb.Dict.{Dict}
use mac_service_now_cmdb.Json.Value.{Value, null, str, get, get_or_empty, or_else}
use mac_service_now_cmdb.Json.Show.{show}

pub record EntraUser : Type 0 where
  pub object_id : String
  pub user_principal_name : Value
  pub mail : Value
  pub display_name : Value
  pub employee_id : Value
  pub department : Value
  pub company_name : Value
  pub office_location : Value
  pub city : Value
  pub country : Value
  pub account_enabled : Value

-- `EntraUser.from_graph`
unfoldable pub from_graph : Dict Value → EntraUser
unfolding show
from_graph payload = record {
  object_id = show (get_or_empty "id" payload);
  user_principal_name = get "userPrincipalName" payload;
  mail = get "mail" payload;
  display_name = get "displayName" payload;
  employee_id = get "employeeId" payload;
  department = get "department" payload;
  company_name = get "companyName" payload;
  office_location = get "officeLocation" payload;
  city = get "city" payload;
  country = get "country" payload;
  account_enabled = get "accountEnabled" payload;
}

-- `EntraUser(object_id=..., user_principal_name=..., mail=..., display_name=...)`
abbrev pub from_device : String → Value → Value → Value → EntraUser
from_device id upn mail name = record {
  object_id = id;
  user_principal_name = upn;
  mail = mail;
  display_name = name;
  employee_id = null;
  department = null;
  company_name = null;
  office_location = null;
  city = null;
  country = null;
  account_enabled = null;
}

-- `EntraUser.primary_email`
abbrev pub primary_email : EntraUser → Value
primary_email u = or_else u.mail u.user_principal_name

attributes : EntraUser → Dict Value
attributes u =
    ("object_id", str u.object_id)
    ∷ ("user_principal_name", u.user_principal_name)
    ∷ ("mail", u.mail)
    ∷ ("display_name", u.display_name)
    ∷ ("employee_id", u.employee_id)
    ∷ ("department", u.department)
    ∷ ("company_name", u.company_name)
    ∷ ("office_location", u.office_location)
    ∷ ("city", u.city)
    ∷ ("country", u.country)
    ∷ ("account_enabled", u.account_enabled)
    ∷ ("primary_email", primary_email u)
    ∷ []

-- `getattr(user, name, None)`, for the attributes that hold data
unfoldable pub attribute : EntraUser → String → Value
unfolding attributes
attribute u name = get name (attributes u)

-- A `sys_user` record that a device owner was matched with, and by which key.
pub record SysUserRef : Type 0 where
  pub sys_id : String
  pub user_name : Value
  pub email : Value
  pub employee_number : Value
  pub matched_on : String
