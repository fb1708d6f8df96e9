-- ===== src/Tasks/Catalogue/Access.antt =====
-- The cards server, registration and federation of `Cards` (internal/tasks/tasks.go).
use matrixctrl.Common.{true, false, [], ◌∷◌}
use matrixctrl.Common.Tree.{Value}
use matrixctrl.Tasks.Fields.{Kind, Card, val, mas, synapse}
use matrixctrl.Tasks.Catalogue.Parts.{zero_field, host, synapse_restart}

abbrev pub server_card : Card
server_card = record {
  id = "server";
  title = "Server & Adressen";
  sub = "Unter welchen Adressen dein Server erreichbar ist";
  icon = "globe";
  fields =
      ((record zero_field {
        id = "serverName";
        label = "Servername";
        help = "Der Teil hinter dem Doppelpunkt in jeder Matrix-ID (@name:servername).";
        kind = Kind.text;
        locked =
            "Lässt sich nach dem ersten Start nicht ändern — alle Accounts, Räume und Nachrichten tragen ihn.";
        source = val "serverName";
      })
        ∷ (host "host.synapse" "synapse.ingress.host" "Homeserver"
            "Hier verbinden sich Apps und andere Server.")
        ∷ (host "host.mas" "matrixAuthenticationService.ingress.host" "Anmeldung"
            "Die Seite, auf der man sich anmeldet und registriert.")
        ∷ (host "host.element" "elementWeb.ingress.host" "Element Web"
            "Der Matrix-Client im Browser.")
        ∷ (host "host.admin" "elementAdmin.ingress.host" "Element Admin"
            "Die Verwaltungsoberfläche von Element.")
        ∷ (host "host.rtc" "matrixRTC.ingress.host" "Anrufe"
            "Über diese Adresse bauen Element Call und die Apps Anrufe auf.")
        ∷ []);
}

abbrev pub registration_card : Card
registration_card = record {
  id = "registration";
  title = "Registrierung & Anmeldung";
  sub = "Wer sich einen Account anlegen darf und wie man sich anmeldet";
  icon = "users";
  fields =
      ((record zero_field {
        id = "mas.password_registration";
        label = "Registrierung mit Benutzername und Passwort";
        help =
            "An: jeder, der die Anmeldeseite findet, kann sich einen Account anlegen. Aus: Accounts legst du an — oder man registriert sich über einen externen Anbieter (Seite „Anmeldung\").";
        kind = Kind.bool;
        default = Value.bool false;
        restarts = "Die Anmeldung startet neu.";
        warn = "Offene Registrierung ohne Captcha zieht erfahrungsgemäß Spam-Accounts an.";
        source = mas "account.password_registration_enabled";
      })
        ∷ (record zero_field {
          id = "mas.email_required";
          label = "E-Mail-Adresse bei der Registrierung verlangen";
          help =
              "Wirkt nur bei Registrierung mit Passwort. Braucht einen eingerichteten E-Mail-Versand.";
          kind = Kind.bool;
          default = Value.bool true;
          restarts = "Die Anmeldung startet neu.";
          source = mas "account.password_registration_email_required";
        })
        ∷ (record zero_field {
          id = "mas.passwords";
          label = "Anmeldung mit Passwort";
          help = "Aus: Anmeldung nur noch über externe Anbieter (Google, GitHub, Zitadel …).";
          kind = Kind.bool;
          default = Value.bool true;
          restarts = "Die Anmeldung startet neu.";
          warn =
              "Vorher sicherstellen, dass dein Admin-Account mit einem Anbieter verknüpft ist — sonst kommst du nur noch über den Notzugang herein.";
          source = mas "passwords.enabled";
        })
        ∷ (record zero_field {
          id = "mas.deactivation";
          label = "Nutzer dürfen ihren Account selbst löschen";
          kind = Kind.bool;
          default = Value.bool true;
          restarts = "Die Anmeldung startet neu.";
          source = mas "account.account_deactivation_allowed";
        })
        ∷ (record zero_field {
          id = "mas.displayname";
          label = "Nutzer dürfen ihren Anzeigenamen ändern";
          kind = Kind.bool;
          default = Value.bool true;
          restarts = "Die Anmeldung startet neu.";
          source = mas "account.displayname_change_allowed";
        })
        ∷ []);
}

abbrev pub federation_card : Card
federation_card = record {
  id = "federation";
  title = "Föderation";
  sub = "Mit welchen anderen Matrix-Servern dein Server spricht";
  icon = "globe";
  fields =
      ((record zero_field {
        id = "synapse.federationAllow";
        label = "Verbindung zu anderen Servern";
        help =
            "Alle: deine Nutzer können mit jedem Matrix-Server schreiben (Standard). Keine: nur untereinander. Oder nur mit bestimmten Servern.";
        kind = Kind.allow_list;
        restarts = synapse_restart;
        warn =
            "Eingeschränkt verlieren Räume mit Mitgliedern auf anderen Servern die Verbindung zu ihnen.";
        source = synapse "federation_domain_whitelist";
      })
        ∷ (record zero_field {
          id = "synapse.publicRoomsFederation";
          label = "Andere Server dürfen dein öffentliches Raumverzeichnis sehen";
          kind = Kind.bool;
          default = Value.bool false;
          restarts = synapse_restart;
          source = synapse "allow_public_rooms_over_federation";
        })
        ∷ []);
}
